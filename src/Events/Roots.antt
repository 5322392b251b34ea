-- ===== src/Events/Roots.antt =====
-- How many timers head the heap: pairing leaves one, and removal no more than there were.
use mathlib.Core.List.{reverse-cons}
use nohands.Prelude.{
  ℕ, suc, ◌+◌, ◌≤◌, ◌≡◌, refl, ap, ◌∙◌, inl, inr, false, List, [], ◌∷◌, ◌++◌, reverse, Option, none,
  some, ◌==◌, Bool-cases, arith,
}
use nohands.Faults.Post.{Holds, Post-bind, Post-map, Post-weaken}
use nohands.Events.Timers.{
  Timers, nil, cons, Timer, is_nil, append, append_some, prepend, pair_all, collect_all,
  collect_from, pair_timers, orphans, remove_timer, list_length,
}
use nohands.Events.Heap.{list_length-append, remove_timer-head, remove_timer-below}

some_roots :
    (dest : Timers) (o : Option Timer) → list_length (append_some dest o) ≤ list_length dest + 1
some_roots dest none = omega arith
some_roots dest (some t) = omega (arith, list_length-append dest (prepend t nil))

last_roots :
    (dest : Timers) (ts : List Timer) (t : Timer)
    → list_length (append_some dest (collect_from (ts ++ t ∷ []))) ≡ list_length dest + 1
unfolding collect_from
last_roots dest [] t = list_length-append dest (prepend (collect_all t []) nil)
last_roots dest (u ∷ ts) t = list_length-append dest (prepend (collect_all u (ts ++ t ∷ [])) nil)

reverse_roots :
    (dest : Timers) (t : Timer) (ts : List Timer)
    → list_length (append_some dest (collect_from (reverse (t ∷ ts)))) ≡ list_length dest + 1
reverse_roots dest t ts =
    ap (λ us. list_length (append_some dest (collect_from us))) (reverse-cons t ts)
    ∙ last_roots dest (reverse ts) t

pub list_length-pair_timers :
    (siblings dest : Timers) (delta : ℕ)
    → is_nil siblings ≡ false
    → Holds (λ ts. list_length ts ≡ list_length dest + 1) (pair_timers siblings dest delta)
unfolding pair_timers pair_all
list_length-pair_timers nil dest delta h = cc
list_length-pair_timers (cons i d cs nil) dest delta h = reverse_roots dest _ []
list_length-pair_timers (cons i d cs (cons j e ds ts)) dest delta h =
    reverse_roots dest _ (pair_all delta ts)

list_length-orphans : (cs : Timers) (d : ℕ) → Holds (λ ts. list_length ts ≤ 1) (orphans cs d)
unfolding orphans
list_length-orphans nil d = omega arith
list_length-orphans (cons k e cs ts) d =
    Post-weaken ⊥ _ _ (pair_timers (cons k e cs ts) nil d) (λ us h. omega arith)
      (list_length-pair_timers (cons k e cs ts) nil d refl)

nothing_removed : (i : ℕ) → Holds (λ us. list_length us ≤ 0) (remove_timer i nil)
unfolding remove_timer
nothing_removed i = omega arith

pub list_length-remove_timer :
    (i : ℕ) (ts : Timers) → Holds (λ us. list_length us ≤ list_length ts) (remove_timer i ts)
list_length-remove_timer i nil = nothing_removed i
list_length-remove_timer i (cons j d cs ts) = elim (Bool-cases (j == i)) [
  | inl e ↦ rw (remove_timer-head i j d cs ts e) (
      Post-map ⊥ _ (λ us. list_length us ≤ suc (list_length ts)) (orphans cs d) (λ up. append up ts)
        (list_length-orphans cs d) (λ up h. omega (arith, list_length-append up ts)))
  | inr e ↦ rw (remove_timer-below i j d cs ts e) (
      Post-bind ⊥ _ _ (remove_timer i cs) _ (list_length-remove_timer i cs) (λ cs' h.
        Post-map ⊥ _ (λ us. list_length us ≤ suc (list_length ts)) (remove_timer i ts)
          (λ ts'. cons j d cs' ts') (list_length-remove_timer i ts) (λ ts' k. omega arith)))
]
