-- ===== src/Recovery/Selected.antt =====
-- Which sets addFailedESets of Recovery/Failed.antt chooses.
use native.Mathlib.Nat.{div-eq_of_lt-le}
use native.Mathlib.Decide.{ℕ_discrete}
use eset_store.Base.{
  ℕ, zero, suc, ◌+◌, ◌-◌, ◌*◌, ◌/◌, ◌%◌, ◌≤◌, ◌<◌, ◌≡◌, ◌≢◌, refl, sym, ap, ◌∙◌, arith, Bool, true,
  false, ◌&&◌, ◌||◌, List, [], ◌∷◌, ltb, leb, ◌==◌, if◌then◌else◌, eq→==, ne→not_eq,
}
use eset_store.Placement.ESet.{ESets, node_col}
use eset_store.Placement.Manager.{ServerPlace}
use eset_store.Recovery.Failed.{
  FailedESets, create_failed_esets_list, add_eset, add_row_zero, add_row_other, choose_failed_esets,
}

-- Is set `i` in the list?
abbrev pub queued : List FailedESets → ℕ → Bool
queued [] i = false
queued (f ∷ fs) i = f.eset_idx == i || queued fs i

false-or : (b : Bool) → b || false ≡ b
false-or true = refl
false-or false = refl

add_row_zero-queued :
    (server : ServerPlace) (left idx : ℕ) (esets : ℕ → ESets) (pending : List FailedESets) (i : ℕ)
    → queued (add_row_zero server left idx (esets, pending)).1 i
      ≡ (leb idx i && ltb i (idx + left) || queued pending i)
unfolding add_row_zero add_eset create_failed_esets_list
add_row_zero-queued server zero idx esets pending i = ground arith
add_row_zero-queued server (suc left) idx esets pending i =
    add_row_zero-queued server left (idx + 1) (add_eset server idx (esets, pending)).0
      (add_eset server idx (esets, pending)).1 i
    ∙ ground arith

-- The test of the second loop at the set `s` of the group.
hit : ServerPlace → ℕ → ℕ → Bool
hit server factor s = server.group_col_id == (s / factor * (server.group_row_id - 1) + s) % factor

-- One more set joins the window, with its test for it.
window_step :
    (f : ℕ → Bool) (start left idx i : ℕ) (q : Bool)
    → ((leb (start + (idx + 1)) i && ltb i (start + (idx + 1) + left)) && f (i - start)
        || ((f idx && (idx + start == i)) || q))
      ≡ ((leb (start + idx) i && ltb i (start + idx + suc left)) && f (i - start) || q)
window_step f start left idx i q = elim (ℕ_discrete i (start + idx)) [
  | yes e ↦ rw (e, same) (ground arith)
  | no ne ↦ ground arith
]
  where
    same : start + idx - start ≡ idx
    same = omega arith

-- Whether the set is chosen or not, what is queued after the step.
either :
    (server : ServerPlace) (idx i : ℕ) (window : Bool)
    (next : (ℕ → ESets) × List FailedESets → (ℕ → ESets) × List FailedESets)
    → ((state : (ℕ → ESets) × List FailedESets)
        → queued (next state).1 i ≡ (window || queued state.1 i))
    → (esets : ℕ → ESets) (pending : List FailedESets) (b : Bool)
    → queued (next (if b then add_eset server idx (esets, pending) else (esets, pending))).1 i
      ≡ (window || ((b && (idx == i)) || queued pending i))
unfolding add_eset create_failed_esets_list
either server idx i window next rest esets pending true =
    rest (add_eset server idx (esets, pending))
either server idx i window next rest esets pending false = rest (esets, pending)

add_row_other-queued :
    (server : ServerPlace) (factor start left idx : ℕ) (state : (ℕ → ESets) × List FailedESets)
    (i : ℕ)
    → queued (add_row_other server factor start left idx state).1 i ≡ (
        (leb (start + idx) i && ltb i (start + idx + left)) && hit server factor (i - start)
        || queued state.1 i)
unfolding add_row_other hit
add_row_other-queued server factor start zero idx state i = ground arith
add_row_other-queued server factor start (suc left) idx state i =
    either server (idx + start) i _ (add_row_other server factor start left (idx + 1))
      (λ st. add_row_other-queued server factor start left (idx + 1) st i) state.0 state.1
      (hit server factor idx)
    ∙ window_step (hit server factor) start left idx i (queued state.1 i)

-- The first set of the group of a server.
group_start : ServerPlace → ℕ → ℕ
group_start server factor = server.group_id * (factor * factor)

chosen_at_row_zero :
    (server : ServerPlace) (factor : ℕ) (esets : ℕ → ESets) (i : ℕ)
    → server.group_row_id ≡ 0
    → queued (choose_failed_esets server factor esets).1 i ≡ (
        leb (group_start server factor + server.group_col_id * factor) i
        && ltb i (group_start server factor + server.group_col_id * factor + factor))
unfolding choose_failed_esets group_start
chosen_at_row_zero server factor esets i z = rw (eq→== server.group_row_id 0 z) (
    add_row_zero-queued server factor (group_start server factor + server.group_col_id * factor)
      esets [] i
    ∙ false-or _)

chosen_at_row_other :
    (server : ServerPlace) (factor : ℕ) (esets : ℕ → ESets) (i : ℕ)
    → server.group_row_id ≢ 0
    → queued (choose_failed_esets server factor esets).1 i ≡ (
        (leb (group_start server factor + 0) i
          && ltb i (group_start server factor + 0 + factor * factor))
        && hit server factor (i - group_start server factor))
unfolding choose_failed_esets group_start
chosen_at_row_other server factor esets i ne = rw (ne→not_eq server.group_row_id 0 ne) (
    add_row_other-queued server factor (group_start server factor) (factor * factor) 0 (esets, []) i
    ∙ false-or _)

-- Row 0: the window of `c` sets is the sets with this quotient.
quotient_window :
    (c s col g : ℕ)
    → 0 < c
    → (leb (g + col * c) (g + s) && ltb (g + s) (g + col * c + c)) ≡ (s / c == col)
quotient_window c s col g h = elim (ℕ_discrete (s / c) col) [
  | yes e ↦ ground (arith, ap (λ q. q * c) e)
  | no ne ↦ ground (arith, outside ne)
]
  where
    outside : ¬ (s / c ≡ col) → ¬ ((col * c ≤ s) × (s < (col + 1) * c))
    outside ne w = ne (div-eq_of_lt-le c w.0 w.1)

-- Any other row: every set of the group is in the window.
row_window :
    (c s g : ℕ) (f : ℕ → Bool)
    → s < c * c
    → ((leb (g + 0) (g + s) && ltb (g + s) (g + 0 + c * c)) && f (g + s - g)) ≡ f s
row_window c s g f h = rw same (ground arith)
  where
    same : g + s - g ≡ s
    same = omega arith

==-sym : (a b : ℕ) → (a == b) ≡ (b == a)
==-sym a b = ground arith

-- addFailedESets puts a set of the server's group on its list exactly when the set has its node of
-- the server's row in the server's column.
pub choose_failed_esets-exact :
    (server : ServerPlace) (factor s : ℕ) (esets : ℕ → ESets)
    → s < factor * factor
    → queued (choose_failed_esets server factor esets).1 (server.group_id * (factor * factor) + s)
      ≡ (node_col factor s server.group_row_id == server.group_col_id)
unfolding node_col hit group_start
choose_failed_esets-exact server factor s esets h = elim (ℕ_discrete server.group_row_id 0) [
  | yes z ↦
      chosen_at_row_zero server factor esets (server.group_id * (factor * factor) + s) z
      ∙ quotient_window factor s server.group_col_id (group_start server factor) (grind arith)
      ∙ rw z refl
  | no ne ↦
      chosen_at_row_other server factor esets (server.group_id * (factor * factor) + s) ne
      ∙ row_window factor s (group_start server factor) (hit server factor) h
      ∙ ==-sym _ _
      ∙ rw (ne→not_eq server.group_row_id 0 ne) refl
]

in_first_rows :
    (g col c i : ℕ)
    → col < c
    → (leb (g + col * c) i && ltb i (g + col * c + c)) ≡ true
    → (g ≤ i) × (i < g + c * c)
in_first_rows g col c i h e = ground (arith, fits)
  where
    fits : col * c + c ≤ c * c
    fits = grind arith

in_all_rows :
    (g c i : ℕ) (b : Bool)
    → ((leb (g + 0) i && ltb i (g + 0 + c * c)) && b) ≡ true
    → (g ≤ i) × (i < g + c * c)
in_all_rows g c i b e = ground arith

-- addFailedESets puts no set of another group on its list, where the server's column is one of the
-- columns that the overlapping factor gives.
pub choose_failed_esets-own_group :
    (server : ServerPlace) (factor i : ℕ) (esets : ℕ → ESets)
    → server.group_col_id < factor
    → queued (choose_failed_esets server factor esets).1 i ≡ true
    → (server.group_id * (factor * factor) ≤ i)
      × (i < server.group_id * (factor * factor) + factor * factor)
unfolding group_start
choose_failed_esets-own_group server factor i esets h e = elim (ℕ_discrete server.group_row_id 0) [
  | yes z ↦
      in_first_rows (group_start server factor) server.group_col_id factor i h
        (sym (chosen_at_row_zero server factor esets i z) ∙ e)
  | no ne ↦
      in_all_rows (group_start server factor) factor i
        (hit server factor (i - group_start server factor))
        (sym (chosen_at_row_other server factor esets i ne) ∙ e)
]
