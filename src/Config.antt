-- ===== src/Config.antt =====
-- configs/config.go and configs/validator.go. The fields of the configuration with their tags, as package reflect
-- gives them, are `fields`. Reading the file is left out.
pub mod Bounds
mod Tests
use monocle.Prelude.{
  ℕ, zero, suc, ltb, ◌==◌, ◌&&◌, ◌||◌, not, Bool, true, false, Option, none, some, List, [], ◌∷◌,
  ◌++◌, length, if◌then◌else◌,
}
use monocle.Prelude.Text.{Text, codes, eqb}
use monocle.Prelude.Suffix.{byte_length}
use monocle.Prelude.Decimal.{parse_int}
use monocle.Prelude.Unicode.{ascii, lower, ℤ, pos, negsuc}

-- `ConfigData`; a list that is `none` is a nil slice.
pub record Config : Type 0 where
  pub base_urls : Option (List Text)
  pub info_log_path : Text
  pub error_log_path : Text
  pub index_path : Text
  pub python_srv_path : Text
  pub tui_border_color : Text
  pub log_channel_size : ℤ
  pub cache_cap : ℤ
  pub ticker_time_milliseconds : ℤ
  pub workers_count : ℤ
  pub tasks_count : ℤ
  pub max_depth : ℤ
  pub n_gram_count : ℤ
  pub max_typo : ℤ
  pub only_same_domain : Bool

pub data Value : Type 0 where
  int_value : ℤ → Value
  text_value : Text → Value
  list_value : Option (List Text) → Value
  bool_value : Bool → Value

pub record Field : Type 0 where
  pub name : Text
  pub tag : Text
  pub value : Value

-- The result of `Validate`: `faulted` is a panic.
pub data Check : Type 0 where
  accepted : Check
  refused : Text → Check
  faulted : Check

abbrev pub fields : Config → List Field
fields cfg =
    record {
      name = codes "BaseURLs";
      tag = codes "required,len=1:100";
      value = list_value cfg.base_urls;
    }
    ∷ record {
      name = codes "InfoLogPath";
      tag = codes "required";
      value = text_value cfg.info_log_path;
    }
    ∷ record {
      name = codes "ErrorLogPath";
      tag = codes "required";
      value = text_value cfg.error_log_path;
    }
    ∷ record { name = codes "IndexPath"; tag = codes "required"; value = text_value cfg.index_path }
    ∷ record {
      name = codes "PythonSrvPath";
      tag = codes "required";
      value = text_value cfg.python_srv_path;
    }
    ∷ record {
      name = codes "TUIBorderColor";
      tag = codes "required";
      value = text_value cfg.tui_border_color;
    }
    ∷ record {
      name = codes "LogChannelSize";
      tag = codes "min=1000,max=50000";
      value = int_value cfg.log_channel_size;
    }
    ∷ record {
      name = codes "CacheCap";
      tag = codes "min=100,max=100000";
      value = int_value cfg.cache_cap;
    }
    ∷ record {
      name = codes "TickerTimeMilliseconds";
      tag = codes "min=500,max=10000";
      value = int_value cfg.ticker_time_milliseconds;
    }
    ∷ record {
      name = codes "WorkersCount";
      tag = codes "min=50,max=2000";
      value = int_value cfg.workers_count;
    }
    ∷ record {
      name = codes "TasksCount";
      tag = codes "min=100,max=10000";
      value = int_value cfg.tasks_count;
    }
    ∷ record {
      name = codes "MaxDepth";
      tag = codes "min=1,max=10";
      value = int_value cfg.max_depth;
    }
    ∷ record {
      name = codes "NGramCount";
      tag = codes "min=2,max=5";
      value = int_value cfg.n_gram_count;
    }
    ∷ record { name = codes "MaxTypo"; tag = codes "min=1,max=4"; value = int_value cfg.max_typo }
    ∷ record { name = codes "OnlySameDomain"; tag = []; value = bool_value cfg.only_same_domain }
    ∷ []

-- `strings.Split(s, c)`, where `part` is what was read of the part.
unfoldable pub split_from : ℕ → Text → Text → List Text
split_from c part [] = part ∷ []
split_from c part (d ∷ s) =
    let next = part ∷ split_from c [] s in
    let more = split_from c (part ++ d ∷ []) s in if d == c then next else more

-- `strings.SplitN(s, "=", 2)`
unfoldable pub entity_from : Text → Text → Text × Option Text
entity_from part [] = (part, none)
entity_from part (d ∷ s) =
    let more = entity_from (part ++ d ∷ []) s in if d == b'=' then (part, some s) else more

-- `a < b` on integers.
unfoldable pub is_less : ℤ → ℤ → Bool
is_less (pos a) (pos b) = ltb a b
is_less (pos a) (negsuc b) = false
is_less (negsuc a) (pos b) = true
is_less (negsuc a) (negsuc b) = ltb b a

unfoldable pub is_zero : Value → Bool
is_zero (int_value (pos zero)) = true
is_zero (int_value (pos (suc n))) = false
is_zero (int_value (negsuc n)) = false
is_zero (text_value s) = eqb s []
is_zero (list_value none) = true
is_zero (list_value (some xs)) = false
is_zero (bool_value b) = false

-- `f.Len()` of the kinds that have one.
unfoldable pub size_of : Value → Option ℕ
size_of (text_value s) = some (byte_length s)
size_of (list_value none) = some 0
size_of (list_value (some xs)) = some (length xs)
size_of (int_value n) = none
size_of (bool_value b) = none

unfoldable pub check_min : Field → Option Text → Check
check_min f border = elim f.value [
  | text_value s ↦ accepted
  | list_value xs ↦ accepted
  | bool_value b ↦ accepted
  | int_value n ↦ elim border [
    | none ↦ faulted
    | some s ↦ elim (parse_int s) [
      | none ↦ refused s
      | some least ↦
          if is_less n least
          then refused (codes "field " ++ (f.name ++ codes " less than min"))
          else accepted
    ]
  ]
]

unfoldable pub check_max : Field → Option Text → Check
check_max f border = elim f.value [
  | text_value s ↦ accepted
  | list_value xs ↦ accepted
  | bool_value b ↦ accepted
  | int_value n ↦ elim border [
    | none ↦ faulted
    | some s ↦ elim (parse_int s) [
      | none ↦ refused s
      | some most ↦
          if is_less most n
          then refused (codes "field " ++ (f.name ++ codes " greater than max"))
          else accepted
    ]
  ]
]

-- The two borders of a length, in their order.
unfoldable pub check_borders : Field → ℕ → List Text → Check
check_borders f size (low ∷ high ∷ []) = elim (parse_int low) [
  | none ↦ refused low
  | some least ↦ elim (parse_int high) [
    | none ↦ refused high
    | some most ↦
        if is_less (pos size) least || is_less most (pos size)
        then refused (codes "field " ++ (f.name ++ codes " length not in range"))
        else accepted
  ]
]
check_borders f size parts = refused (codes "invalid len tag format in field: " ++ f.name)

unfoldable pub check_len : Field → Option Text → Check
check_len f borders = elim (size_of f.value) [
  | none ↦ accepted
  | some size ↦ elim borders [
    | none ↦ faulted
    | some s ↦ check_borders f size (split_from b':' [] s)
  ]
]

-- The `switch` over a tag.
unfoldable pub check_tag : Field → Text → Check
check_tag f tag =
    let (key, border) = entity_from [] tag in
    let word = lower ascii key in
    if eqb word (codes "required")
    then (if is_zero f.value
        then refused (codes "required field is empty: " ++ f.name)
        else accepted)
    else if eqb word (codes "min")
    then check_min f border
    else if eqb word (codes "max")
    then check_max f border
    else if eqb word (codes "len")
    then check_len f border
    else refused (codes "unknown tag: " ++ (key ++ (codes " in field: " ++ f.name)))

-- The first result that is not `accepted`.
unfoldable pub and_then : Check → Check → Check
and_then accepted next = next
and_then (refused err) next = refused err
and_then faulted next = faulted

unfoldable pub check_tags : Field → List Text → Check
check_tags f [] = accepted
check_tags f (tag ∷ tags) = and_then (check_tag f tag) (check_tags f tags)

unfoldable pub validate_fields : List Field → Check
validate_fields [] = accepted
validate_fields (f ∷ fs) =
    and_then (if eqb f.tag [] then accepted else check_tags f (split_from b',' [] f.tag))
      (validate_fields fs)

-- `(*ConfigData).Validate`
unfoldable pub validate : Config → Check
validate cfg = validate_fields (fields cfg)
