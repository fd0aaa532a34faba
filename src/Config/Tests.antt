-- ===== src/Config/Tests.antt =====
-- Configuration files of two lines, and the theorems about them.
use native.Mathlib.Omega.{arith}
use eset_store.Base.{◌≡◌, refl, some, List, [], ◌∷◌, ◌++◌}
use eset_store.Text.Number.{minus_one}
use eset_store.Text.Decimal.{decimal}
use eset_store.Text.Search.{starts_with}
use eset_store.Config.Properties.{Property, load_config_properties, get_int_value, get_str_value}
use eset_store.Config.Properties.Mode.{line_start}
use eset_store.Config.Load.{IsPrintable, print_lines, get_int_value-loaded}

-- "k=6"
abbrev k_value : Property
k_value = record { key = b'k' ∷ []; value = decimal 1 6 }

-- "m=x"
abbrev m_value : Property
m_value = record { key = b'm' ∷ []; value = b'x' ∷ [] }

k_value-IsPrintable : IsPrintable k_value
unfolding decimal
k_value-IsPrintable = record {
  first = b'k';
  others = [];
  is_key = refl;
  no_comment = omega arith;
  no_space = omega arith;
  key_free = omega arith;
  value_free = omega arith;
  key_fits = omega arith;
  value_fits = omega arith;
}

m_value-IsPrintable : IsPrintable m_value
m_value-IsPrintable = record {
  first = b'm';
  others = [];
  is_key = refl;
  no_comment = omega arith;
  no_space = omega arith;
  key_free = omega arith;
  value_free = omega arith;
  key_fits = omega arith;
  value_fits = omega arith;
}

-- a comment, an empty line, a property, and one whose line does not end
load_config_properties_run :
    load_config_properties [] line_start
      (b'#' ∷ b'c' ∷ 10 ∷ 10 ∷ b'm' ∷ b'=' ∷ b'x' ∷ 10 ∷ b'k' ∷ b'=' ∷ b'6' ∷ [])
    ≡ some (m_value ∷ [])
unfolding load_config_properties
load_config_properties_run = refl

-- A key is found by the start of its text.
get_value_run :
    (get_int_value (record { key = b'a' ∷ b'b' ∷ []; value = b'7' ∷ [] } ∷ []) (b'a' ∷ []) ≡ 7)
    × (get_int_value [] (b'a' ∷ []) ≡ minus_one)
    × (get_str_value (m_value ∷ []) (b'm' ∷ []) ≡ some (b'x' ∷ []))
unfolding get_int_value get_str_value
get_value_run = (refl, refl, refl)

get_int_value-loaded_example :
    (cfg : List Property) × (load_config_properties [] line_start
        (print_lines (m_value ∷ []) ++ (print_lines (k_value ∷ m_value ∷ []) ++ []))
      ≡ some cfg)
    × (get_int_value cfg (b'k' ∷ []) ≡ 6)
unfolding starts_with
get_int_value-loaded_example =
    get_int_value-loaded (m_value ∷ []) (m_value ∷ []) k_value 0 6 (m_value-IsPrintable, tt)
      k_value-IsPrintable (m_value-IsPrintable, tt) (refl, tt) refl (omega arith)
