-- ===== src/Config/Properties.antt =====
-- The functions of ECMeta/cfgParser.c and ECMeta/configProperties.c. The two arrays of 255
-- characters of a property are the lists of what was appended; `none` is an append or the final NUL
-- outside its array.
use eset_store.Base.{
  ℕ, Bool, ◌||◌, Option, none, some, List, [], ◌∷◌, ◌++◌, ltb, ◌==◌, if◌then◌else◌, length, ◌>>=◌,
}
use eset_store.Text.Number.{c_str, str_to_int, minus_one}
use eset_store.Text.Search.{starts_with}

pub record Property : Type 0 where
  pub key : List ℕ
  pub value : List ℕ

abbrev pub text_size : ℕ
text_size = 255

abbrev pub init_property : Property
init_property = record { key = []; value = [] }

unfoldable pub append_key : Property → ℕ → Option Property
append_key p ch =
    if ltb (length p.key) text_size then some (record p { key = p.key ++ ch ∷ [] }) else none

unfoldable pub append_value : Property → ℕ → Option Property
append_value p ch =
    if ltb (length p.value) text_size then some (record p { value = p.value ++ ch ∷ [] }) else none

-- The two NULs must fit too.
unfoldable pub finalize_prop : Property → Option Property
finalize_prop p =
    if ltb (length p.key) text_size
    then (if ltb (length p.value) text_size then some p else none)
    else none

-- The list of the properties, the last one first.
unfoldable pub add_property : List Property → Property → Option (List Property)
unfolding finalize_prop
add_property cfg p = finalize_prop p >>= λ p'. some (p' ∷ cfg)

-- Where the loop of loadConfigProperties is: `newLine`, in dry_one_line, or in a line with
-- `readKey` 1 or 0, with `newPro`.
pub data Mode : Type 0 where
  line_start : Mode
  comment : Mode
  in_key : Property → Mode
  in_value : Property → Mode

abbrev pub is_line_end : ℕ → Bool
is_line_end ch = ch == 13 || ch == 10

-- One character.
unfoldable pub load_char : List Property → Mode → ℕ → Option (List Property × Mode)
unfolding append_key append_value add_property
load_char cfg line_start ch =
    if ch == b'#'
    then some (cfg, comment)
    else if is_line_end ch || ch == b' '
    then some (cfg, line_start)
    else (append_key init_property ch >>= λ p. some (cfg, in_key p))
load_char cfg comment ch = some (cfg, if is_line_end ch then line_start else comment)
load_char cfg (in_key p) ch =
    if is_line_end ch
    then (add_property cfg p >>= λ cfg'. some (cfg', line_start))
    else if ch == b'='
    then some (cfg, in_value p)
    else (append_key p ch >>= λ p'. some (cfg, in_key p'))
load_char cfg (in_value p) ch =
    if is_line_end ch
    then (add_property cfg p >>= λ cfg'. some (cfg', line_start))
    else if ch == b'='
    then some (cfg, in_value p)
    else (append_value p ch >>= λ p'. some (cfg, in_value p'))

-- A property whose line does not end is left out.
unfoldable pub load_config_properties : List Property → Mode → List ℕ → Option (List Property)
unfolding load_char
load_config_properties cfg mode [] = some cfg
load_config_properties cfg mode (ch ∷ chs) =
    load_char cfg mode ch >>= λ (cfg', mode'). load_config_properties cfg' mode' chs

unfoldable pub get_int_value : List Property → List ℕ → ℕ
unfolding starts_with c_str str_to_int
get_int_value [] key = minus_one
get_int_value (p ∷ ps) key =
    let rest = get_int_value ps key in
    if starts_with key p.key
    then (if ltb 0 (length p.value) then str_to_int (some (c_str p.value)) else minus_one)
    else rest

-- The value's characters, without a NUL; `none` is NULL.
unfoldable pub get_str_value : List Property → List ℕ → Option (List ℕ)
unfolding starts_with
get_str_value [] key = none
get_str_value (p ∷ ps) key =
    let rest = get_str_value ps key in
    if starts_with key p.key then (if ltb 0 (length p.value) then some p.value else none) else rest
