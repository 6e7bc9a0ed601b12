-- ===== src/Config/Tests.antt =====
-- A configuration as the one beside the program, with a worker count of 40.
use monocle.Prelude.{ℕ, ◌≡◌, refl, ◌↔◌, some, [], ◌∷◌, true}
use monocle.Prelude.Text.{codes, eqb}
use monocle.Prelude.Decimal.{parse_int, magnitude, in_range, scan_digits}
use monocle.Prelude.Unicode.{pos}
use monocle.Config.{
  Config, accepted, refused, split_from, entity_from, is_less, is_zero, size_of, check_min,
  check_max, check_borders, check_len, check_tag, and_then, check_tags, validate_fields, validate,
}
use monocle.Config.Bounds.{IsValid, validate-IsValid}

program : Unit {0}
unfolding eqb split_from entity_from is_less is_zero size_of check_min check_max check_borders
    check_len check_tag and_then check_tags parse_int magnitude in_range scan_digits validate_fields
    validate
program = tt

abbrev with_workers : ℕ → Config
with_workers n = record {
  base_urls = some (codes "https://a.b" ∷ []);
  info_log_path = codes "-";
  error_log_path = codes "-";
  index_path = codes "index";
  python_srv_path = codes "http://model";
  tui_border_color = codes "blue";
  log_channel_size = pos 10000;
  cache_cap = pos 1000;
  ticker_time_milliseconds = pos 1000;
  workers_count = pos n;
  tasks_count = pos 1000;
  max_depth = pos 4;
  n_gram_count = pos 3;
  max_typo = pos 2;
  only_same_domain = true;
}

few_workers : validate (with_workers 40) ≡ refused (codes "field WorkersCount less than min")
unfolding program
few_workers = refl

more_workers : validate (with_workers 50) ≡ accepted
unfolding program
more_workers = refl

validate-IsValid_example : (validate (with_workers 40) ≡ accepted) ↔ IsValid (with_workers 40)
validate-IsValid_example = validate-IsValid (with_workers 40)
