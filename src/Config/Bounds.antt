-- ===== src/Config/Bounds.antt =====
-- The configurations that are accepted.
use monocle.Prelude.{
  ℕ, ◌≡◌, ◌≢◌, ◌≤◌, ◌↔◌, refl, ap, inl, inr, Bool-cases, Option, none, some, List, [], ◌∷◌, length,
  All, if◌then◌else◌, arith,
}
use monocle.Prelude.Text.{Text, codes, eqb, eqb_iff}
use monocle.Prelude.Decimal.{parse_int, magnitude, in_range, scan_digits}
use monocle.Prelude.Unicode.{ℤ, pos, negsuc}
use monocle.Config.{
  Config, list_value, Field, Check, accepted, refused, faulted, fields, split_from, entity_from,
  is_less, is_zero, size_of, check_min, check_max, check_borders, check_len, check_tag, and_then,
  check_tags, validate_fields, validate,
}

-- A field with its tags is accepted.
abbrev IsAccepted : Field → Type 0
IsAccepted f =
    (if eqb f.tag [] then accepted else check_tags f (split_from b',' [] f.tag)) ≡ accepted

abbrev pub IsWithin : ℕ → ℕ → ℤ → Type 0
IsWithin least most n = (m : ℕ) × (n ≡ pos m) × (least ≤ m) × (m ≤ most)

program : Unit {0}
unfolding eqb split_from entity_from is_zero size_of check_min check_max check_borders check_len
    check_tag and_then check_tags parse_int magnitude in_range scan_digits
program = tt

-- The two tests of a range.
abbrev range_check : Text → Text → ℕ → ℕ → ℤ → Check
range_check low high least most n =
    and_then (if is_less n (pos least) then refused low else accepted)
      (and_then (if is_less (pos most) n then refused high else accepted) accepted)

range_lem :
    (low high : Text) (least most : ℕ) (n : ℤ)
    → (range_check low high least most n ≡ accepted) ↔ IsWithin least most n
unfolding is_less and_then
range_lem low high least most (pos n) =
    (λ h. (n, refl, ground (arith, h), ground (arith, h)), λ (m, e, l, u). ground (arith, e, l, u))
range_lem low high least most (negsuc n) =
    (λ h. absurd (ground (arith, h)), λ (m, e, l, u). absurd (ground (arith, e)))

text_lem :
    (err : Text) (s : Text)
    → (and_then (if eqb s [] then refused err else accepted) accepted ≡ accepted) ↔ (s ≢ [])
unfolding and_then
text_lem err s = (
  λ h e. ground (arith, h, (eqb_iff s []).1 e),
  λ h. elim (Bool-cases (eqb s [])) [
    | inl empty ↦ absurd (h ((eqb_iff s []).0 empty))
    | inr filled ↦ rw filled refl
  ],
)

-- A list that is not nil, with 1 to 100 elements.
abbrev pub IsListed : Option (List Text) → Type 0
IsListed o = (xs : List Text) × (o ≡ some xs) × (1 ≤ length xs) × (length xs ≤ 100)

abbrev size : Option (List Text) → ℕ
size none = 0
size (some xs) = length xs

urls_lem :
    (o : Option (List Text))
    → IsAccepted
        (record { name = codes "BaseURLs"; tag = codes "required,len=1:100"; value = list_value o })
      ↔ IsListed o
unfolding program is_less
urls_lem none = (λ h. absurd (ground (arith, h)), λ (xs, e, l, u). absurd (ground (arith, e)))
urls_lem (some xs) = (
  λ h. (xs, refl, ground (arith, h), ground (arith, h)),
  λ (ys, e, l, u). ground (arith, l, u, ap size e),
)

and_then_lem : (a b : Check) → (and_then a b ≡ accepted) ↔ ((a ≡ accepted) × (b ≡ accepted))
unfolding and_then
and_then_lem accepted b = (λ h. (refl, h), λ h. h.1)
and_then_lem (refused err) b = (λ h. absurd (ground (arith, h)), λ h. h.0)
and_then_lem faulted b = (λ h. absurd (ground (arith, h)), λ h. h.0)

validate_fields_lem : (fs : List Field) → (validate_fields fs ≡ accepted) ↔ All IsAccepted fs
unfolding validate_fields and_then
validate_fields_lem [] = (λ h. tt, λ h. refl)
validate_fields_lem (f ∷ fs) = (
  λ h.
      let (first, rest) = (and_then_lem _ (validate_fields fs)).0 h in
      (first, (validate_fields_lem fs).0 rest),
  λ h. (and_then_lem _ (validate_fields fs)).1 (h.0, (validate_fields_lem fs).1 h.1),
)

abbrev pub IsValid : Config → Type 0
IsValid cfg =
    IsListed cfg.base_urls
    × (cfg.info_log_path ≢ [])
    × (cfg.error_log_path ≢ [])
    × (cfg.index_path ≢ [])
    × (cfg.python_srv_path ≢ [])
    × (cfg.tui_border_color ≢ [])
    × IsWithin 1000 50000 cfg.log_channel_size
    × IsWithin 100 100000 cfg.cache_cap
    × IsWithin 500 10000 cfg.ticker_time_milliseconds
    × IsWithin 50 2000 cfg.workers_count
    × IsWithin 100 10000 cfg.tasks_count
    × IsWithin 1 10 cfg.max_depth
    × IsWithin 2 5 cfg.n_gram_count
    × IsWithin 1 4 cfg.max_typo

-- Validate accepts exactly the configurations with 1 to 100 base URLs, where no path, address or colour is empty, and
-- where every number is within the bounds of its tag.
pub validate-IsValid : (cfg : Config) → (validate cfg ≡ accepted) ↔ IsValid cfg
unfolding validate program
validate-IsValid cfg = (
  λ h.
      let (u, (a, (b, (c, (d, (e, (f, (g, (i, (j, (k, (l, (m, (n, _)))))))))))))) =
        (validate_fields_lem (fields cfg)).0 h in
      (
        (urls_lem cfg.base_urls).0 u,
        (text_lem _ cfg.info_log_path).0 a,
        (text_lem _ cfg.error_log_path).0 b,
        (text_lem _ cfg.index_path).0 c,
        (text_lem _ cfg.python_srv_path).0 d,
        (text_lem _ cfg.tui_border_color).0 e,
        (range_lem _ _ 1000 50000 cfg.log_channel_size).0 f,
        (range_lem _ _ 100 100000 cfg.cache_cap).0 g,
        (range_lem _ _ 500 10000 cfg.ticker_time_milliseconds).0 i,
        (range_lem _ _ 50 2000 cfg.workers_count).0 j,
        (range_lem _ _ 100 10000 cfg.tasks_count).0 k,
        (range_lem _ _ 1 10 cfg.max_depth).0 l,
        (range_lem _ _ 2 5 cfg.n_gram_count).0 m,
        (range_lem _ _ 1 4 cfg.max_typo).0 n,
      ),
  λ (u, a, b, c, d, e, f, g, i, j, k, l, m, n). (validate_fields_lem (fields cfg)).1 (
    (urls_lem cfg.base_urls).1 u,
    (
      (text_lem _ cfg.info_log_path).1 a,
      (
        (text_lem _ cfg.error_log_path).1 b,
        (
          (text_lem _ cfg.index_path).1 c,
          (
            (text_lem _ cfg.python_srv_path).1 d,
            (
              (text_lem _ cfg.tui_border_color).1 e,
              (
                (range_lem _ _ 1000 50000 cfg.log_channel_size).1 f,
                (
                  (range_lem _ _ 100 100000 cfg.cache_cap).1 g,
                  (
                    (range_lem _ _ 500 10000 cfg.ticker_time_milliseconds).1 i,
                    (
                      (range_lem _ _ 50 2000 cfg.workers_count).1 j,
                      (
                        (range_lem _ _ 100 10000 cfg.tasks_count).1 k,
                        (
                          (range_lem _ _ 1 10 cfg.max_depth).1 l,
                          (
                            (range_lem _ _ 2 5 cfg.n_gram_count).1 m,
                            ((range_lem _ _ 1 4 cfg.max_typo).1 n, (refl, tt)),
                          ),
                        ),
                      ),
                    ),
                  ),
                ),
              ),
            ),
          ),
        ),
      ),
    ),
  ),
)
