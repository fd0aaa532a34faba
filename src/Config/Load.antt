-- ===== src/Config/Load.antt =====
-- What a configuration file loads to, and what its lookups return.
use eset_store.Base.{
  ℕ, suc, ◌+◌, ◌%◌, ◌^◌, ◌<◌, ◌≡◌, ◌≢◌, refl, ap, sym, subst, ap₂, ◌∙◌, some, List, [], ◌∷◌, ◌++◌,
  append_assoc, append-nil, arith, length, length-append, true, false, ne→not_eq, lt→ltb,
}
use eset_store.Text.Number.{c_str, str_to_int, u32_mod, int_from}
use eset_store.Text.Search.{starts_with}
use eset_store.Text.Markers.{starts_with_self}
use eset_store.Text.Lines.{Free}
use eset_store.Text.Decimal.{
  decimal, length-decimal, decimal-AllDigits, c_str_all, int_from-decimal,
}
use eset_store.Config.Properties.Mode.{line_start, in_key, in_value}
use eset_store.Config.Properties.{
  Property, text_size, add_property, append_key, append_value, finalize_prop, load_char,
  load_config_properties, get_int_value,
}

-- The characters that end a key or a value.
abbrev pub stops : List ℕ
stops = 13 ∷ 10 ∷ b'=' ∷ []

load_key :
    (cfg : List Property) (done left rest : List ℕ)
    → Free stops left
    → length done + length left < text_size
    → load_config_properties cfg (in_key (record { key = done; value = [] })) (left ++ rest)
      ≡ load_config_properties cfg (in_key (record { key = done ++ left; value = [] })) rest
unfolding load_config_properties load_char append_key
load_key cfg done [] rest f h = rw (append-nil done) refl
load_key cfg done (c ∷ cs) rest f h =
    rw
      (
        ne→not_eq c 13 f.0.0,
        ne→not_eq c 10 f.0.1.0,
        ne→not_eq c b'=' f.0.1.1.0,
        lt→ltb (length done) text_size (omega arith),
      )
      (load_key cfg (done ++ (c ∷ [])) cs rest f.1 (omega (arith, length-append done (c ∷ [])))
        ∙ rw (append_assoc done (c ∷ []) cs) refl)

load_value :
    (cfg : List Property) (key done left rest : List ℕ)
    → Free stops left
    → length done + length left < text_size
    → load_config_properties cfg (in_value (record { key = key; value = done })) (left ++ rest)
      ≡ load_config_properties cfg (in_value (record { key = key; value = done ++ left })) rest
unfolding load_config_properties load_char append_value
load_value cfg key done [] rest f h = rw (append-nil done) refl
load_value cfg key done (c ∷ cs) rest f h =
    rw
      (
        ne→not_eq c 13 f.0.0,
        ne→not_eq c 10 f.0.1.0,
        ne→not_eq c b'=' f.0.1.1.0,
        lt→ltb (length done) text_size (omega arith),
      )
      (load_value cfg key (done ++ (c ∷ [])) cs rest f.1
          (omega (arith, length-append done (c ∷ [])))
        ∙ rw (append_assoc done (c ∷ []) cs) refl)

-- The line of a property.
abbrev pub print_line : Property → List ℕ
print_line p = p.key ++ (b'=' ∷ (p.value ++ (10 ∷ [])))

-- The text can be written and read back: the key is not empty and does not start with what starts
-- no key, neither text has a line end or '=', and both have room with their NUL.
pub record IsPrintable (p : Property) : Type 0 where
  pub first : ℕ
  pub others : List ℕ
  pub is_key : p.key ≡ first ∷ others
  pub no_comment : first ≢ b'#'
  pub no_space : first ≢ b' '
  pub key_free : Free stops p.key
  pub value_free : Free stops p.value
  pub key_fits : length p.key < text_size
  pub value_fits : length p.value < text_size

load_end :
    (cfg : List Property) (p : Property) (rest : List ℕ)
    → length p.key < text_size
    → length p.value < text_size
    → load_config_properties cfg (in_value p) (10 ∷ rest)
      ≡ load_config_properties (p ∷ cfg) line_start rest
unfolding load_config_properties load_char add_property finalize_prop
load_end cfg p rest h h' =
    rw (lt→ltb (length p.key) text_size h) (rw (lt→ltb (length p.value) text_size h') refl)

load_first :
    (cfg : List Property) (first : ℕ) (others value rest : List ℕ)
    → first ≢ b'#'
    → first ≢ b' '
    → Free stops (first ∷ others)
    → Free stops value
    → length (first ∷ others) < text_size
    → length value < text_size
    → load_config_properties cfg line_start ((first ∷ others) ++ (b'=' ∷ (value ++ (10 ∷ rest))))
      ≡ load_config_properties
          (record { key = first ∷ others; value = value } ∷ cfg)
          line_start
          rest
unfolding load_config_properties load_char append_key add_property finalize_prop
load_first cfg first others value rest n n' f g h h' =
    rw
      (
        ne→not_eq first b'#' n,
        ne→not_eq first b' ' n',
        ne→not_eq first 13 f.0.0,
        ne→not_eq first 10 f.0.1.0,
      )
      (load_key cfg (first ∷ []) others (b'=' ∷ (value ++ (10 ∷ rest))) f.1 (omega arith)
        ∙ load_value cfg (first ∷ others) [] value (10 ∷ rest) g (omega arith)
        ∙ load_end cfg (record { key = first ∷ others; value = value }) rest h h')

-- The lines of some properties, one after the other.
abbrev pub print_lines : List Property → List ℕ
print_lines [] = []
print_lines (p ∷ ps) = print_line p ++ print_lines ps

abbrev pub ArePrintable : List Property → Type 0
ArePrintable [] = Unit {0}
ArePrintable (p ∷ ps) = IsPrintable p × ArePrintable ps

abbrev pub reverse_onto : List Property → List Property → List Property
reverse_onto [] cfg = cfg
reverse_onto (p ∷ ps) cfg = reverse_onto ps (p ∷ cfg)

load_line :
    (cfg : List Property) (p : Property) (rest : List ℕ)
    → IsPrintable p
    → load_config_properties cfg line_start (print_line p ++ rest)
      ≡ load_config_properties (p ∷ cfg) line_start rest
load_line cfg p rest v =
    ap (load_config_properties cfg line_start) layout
    ∙ load_first cfg v.first v.others p.value rest v.no_comment v.no_space
        (subst (Free stops) v.is_key v.key_free) v.value_free
        (subst (λ k. length k < text_size) v.is_key v.key_fits) v.value_fits
    ∙ ap (λ k. load_config_properties (record { key = k; value = p.value } ∷ cfg) line_start rest)
        (sym v.is_key)
  where
    layout : print_line p ++ rest ≡ (v.first ∷ v.others) ++ (b'=' ∷ (p.value ++ (10 ∷ rest)))
    layout =
        append_assoc p.key (b'=' ∷ (p.value ++ (10 ∷ []))) rest
        ∙ ap₂ (λ k w. k ++ (b'=' ∷ w)) v.is_key (append_assoc p.value (10 ∷ []) rest)

-- Properties that can be read back and are written one to a line are loaded as they are, the last one
-- first, and the loader goes on with what follows them.
pub load_config_properties-print_lines :
    (cfg ps : List Property) (rest : List ℕ)
    → ArePrintable ps
    → load_config_properties cfg line_start (print_lines ps ++ rest)
      ≡ load_config_properties (reverse_onto ps cfg) line_start rest
load_config_properties-print_lines cfg [] rest v = refl
load_config_properties-print_lines cfg (p ∷ ps) rest v =
    ap (load_config_properties cfg line_start) (append_assoc (print_line p) (print_lines ps) rest)
    ∙ load_line cfg p (print_lines ps ++ rest) v.0
    ∙ load_config_properties-print_lines (p ∷ cfg) ps rest v.1

-- No key of the list starts with this text.
abbrev pub Unset : List ℕ → List Property → Type 0
Unset key [] = Unit {0}
Unset key (p ∷ ps) = (starts_with key p.key ≡ false) × Unset key ps

get_int_value-skip :
    (key : List ℕ) (after ps : List Property)
    → Unset key after
    → get_int_value (reverse_onto after ps) key ≡ get_int_value ps key
unfolding get_int_value
get_int_value-skip key [] ps u = refl
get_int_value-skip key (p ∷ after) ps u = get_int_value-skip key after (p ∷ ps) u.1 ∙ skip_one
  where
    skip_one : get_int_value (p ∷ ps) key ≡ get_int_value ps key
    skip_one = rw (u.0, get_int_value) refl

get_int_value_found :
    (p : Property) (ps : List Property) (n v : ℕ)
    → p.value ≡ decimal (suc n) v
    → v < 10 ^ suc n
    → get_int_value (p ∷ ps) p.key ≡ v % u32_mod
unfolding get_int_value str_to_int
get_int_value_found p ps n v e h =
    rw (own_key, get_int_value)
      (rw (lt→ltb 0 (length p.value) (omega (arith, ap length e, length-decimal (suc n) v))) (
        ap (λ t. int_from 0 (c_str t)) e
        ∙ ap (int_from 0) (c_str_all (decimal (suc n) v) (decimal-AllDigits (suc n) v))
        ∙ int_from-decimal (suc n) v h))
  where
    own_key : starts_with p.key p.key ≡ true
    own_key = ap (starts_with p.key) (sym (append-nil p.key)) ∙ starts_with_self p.key []

-- In a file of properties that can be read back, one to a line, a decimal number that is the value of
-- a key is what getIntValue returns for the key, as a 32-bit number, where no line after it has a key
-- that starts with the same text.
pub get_int_value-loaded :
    (before after : List Property) (p : Property) (n v : ℕ)
    → ArePrintable before
    → IsPrintable p
    → ArePrintable after
    → Unset p.key after
    → p.value ≡ decimal (suc n) v
    → v < 10 ^ suc n
    → (cfg : List Property) × (load_config_properties [] line_start
          (print_lines before ++ (print_lines (p ∷ after) ++ []))
        ≡ some cfg)
      × (get_int_value cfg p.key ≡ v % u32_mod)
unfolding load_config_properties
get_int_value-loaded before after p n v ab ip aa u e h = (
  reverse_onto (p ∷ after) (reverse_onto before []),
  load_config_properties-print_lines [] before (print_lines (p ∷ after) ++ []) ab
      ∙ load_config_properties-print_lines (reverse_onto before []) (p ∷ after) [] (ip, aa),
  get_int_value-skip p.key after (p ∷ reverse_onto before []) u ∙ get_int_value_found p _ n v e h,
)
