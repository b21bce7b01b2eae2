-- ===== src/Security/Parsed.antt =====
-- What the cookies that src/rust/src/security.rs takes from a header are.
use ores_middleware.Prelude.Bytes.{Bytes, Bytes-discrete, is_empty}
use ores_middleware.Prelude.Maps.{
  lookup, insert, IsUnique, insert-IsUnique, length-insert_new, All-insert,
}
use ores_middleware.Prelude.Text.{trim}
use ores_middleware.Prelude.{
  ℕ, ◌+◌, ◌≤◌, ◌≡◌, inl, inr, refl, false, List, [], ◌∷◌, ltb, ◌==◌, length, All, arith, Bool-cases,
  Option-cases,
}
use ores_middleware.Security.Cookies.{
  Cookies, max_csrf_cookie_pairs, max_csrf_cookie_header_bytes, split_at, split_pair, usize_max,
  saturating_next, invalid_pair, parse_from, parse_cookie_header,
}

-- A name and a value that pass the tests of a pair.
abbrev pub IsCookie : Bytes × Bytes → Type 0
IsCookie pair = invalid_pair pair.0 pair.1 ≡ false

pub record IsParsed (cookies : Cookies) : Type 0 where
  pub unique : IsUnique Bytes-discrete cookies
  pub few : length cookies ≤ max_csrf_cookie_pairs
  pub valid : All IsCookie cookies

saturating_next_small : (n : ℕ) → n ≤ max_csrf_cookie_pairs → saturating_next n ≡ n + 1
unfolding saturating_next
saturating_next_small n h =
    let below : (n == usize_max) ≡ false = ground (arith, h) in rw (saturating_next, below) refl

within : (limit n : ℕ) → ltb limit n ≡ false → n ≤ limit
within limit n h = ground (arith, h)

parse_from_lem :
    (count : ℕ) (cookies : Cookies) (parts : List Bytes) (result : Cookies)
    → IsParsed cookies
    → length cookies ≤ count
    → count ≤ max_csrf_cookie_pairs
    → parse_from count cookies parts ≡ inr result
    → IsParsed result
unfolding parse_from
parse_from_lem count cookies [] result p le few e =
    let same : cookies ≡ result = cc in rw (← same) p
parse_from_lem count cookies (raw ∷ parts) result p le few e =
    elim (Bool-cases (is_empty (trim raw))) [
      | inl blank ↦ parse_from_lem count cookies parts result p le few (rw blank at e)
      | inr full ↦
          let step : saturating_next count ≡ count + 1 = saturating_next_small count few in
          elim (Bool-cases (ltb max_csrf_cookie_pairs (saturating_next count))) [
            | inl many ↦ absurd (cc (rw (full, many) at e))
            | inr room ↦ elim (Option-cases (split_pair (trim raw))) [
              | inl bare ↦ absurd (cc (rw (full, room, bare) at e))
              | inr (pair, cut) ↦ elim (Bool-cases (invalid_pair (trim pair.0) (trim pair.1))) [
                | inl bad ↦ absurd (cc (rw (full, room, cut, bad) at e))
                | inr good ↦ elim (Option-cases (lookup Bytes-discrete (trim pair.0) cookies)) [
                  | inr (old, seen) ↦ absurd (cc (rw (full, room, cut, good, seen) at e))
                  | inl new ↦
                      let few' = within max_csrf_cookie_pairs (saturating_next count) room in
                      let size =
                        length-insert_new Bytes-discrete (trim pair.0) (trim pair.1) cookies new in
                      parse_from_lem (saturating_next count)
                        (insert Bytes-discrete (trim pair.0) (trim pair.1) cookies) parts result
                        (record {
                          unique =
                              insert-IsUnique Bytes-discrete (trim pair.0) (trim pair.1) cookies
                                p.unique;
                          few = omega (arith, size, step, le, few');
                          valid =
                              All-insert Bytes-discrete IsCookie (trim pair.0) (trim pair.1) cookies
                                good p.valid;
                        })
                        (omega (arith, size, step, le)) few' (rw (full, room, cut, good, new) at e)
                ]
              ]
            ]
          ]
    ]

-- The cookies that are read from a header have no name twice, are at most as many as the limit, and each
-- has a name and a value that pass the tests; and the header is within its own limit.
pub parse_cookie_header-IsParsed :
    (value : Bytes) (cookies : Cookies)
    → parse_cookie_header value ≡ inr cookies
    → (length value ≤ max_csrf_cookie_header_bytes) × IsParsed cookies
unfolding parse_cookie_header
parse_cookie_header-IsParsed value cookies e =
    elim (Bool-cases (ltb max_csrf_cookie_header_bytes (length value))) [
      | inl large ↦ absurd (cc (rw large at e))
      | inr small ↦ (
        within max_csrf_cookie_header_bytes (length value) small,
        parse_from_lem 0 [] (split_at b';' value) cookies
            (record { unique = tt; few = omega arith; valid = tt }) (omega arith) (omega arith)
            (rw small at e),
      )
    ]
