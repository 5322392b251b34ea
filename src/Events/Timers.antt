-- ===== src/Events/Timers.antt =====
-- The timers of libhfp/events-indep.cpp: PairTimers, AddTimer, RemoveTimer and the first part of
-- RunTimers, with the members of IndepTimerNotifier. A ListItem list is a list, its head left out.
use nohands.Prelude.{
  ℕ, zero, suc, ◌+◌, ◌-◌, ◌%◌, Bool, true, false, not, ◌||◌, Option, none, some, List, [], ◌∷◌,
  ◌++◌, reverse, ltb, leb, ◌==◌, if◌then◌else◌,
}
use nohands.Faults.{Result, ok, ◌>>=◌, ◌>>◌, assert}

-- `m_msec_delta` is an unsigned int.
abbrev pub u32_mod : ℕ
u32_mod = 4_294_967_296

abbrev pub add32 : ℕ → ℕ → ℕ
add32 a b = (a + b) % u32_mod

abbrev pub sub32 : ℕ → ℕ → ℕ
sub32 a b = (a + u32_mod - b) % u32_mod

-- A list of timers, linked by `m_links`: number, `m_msec_delta` and `m_children` of the first, and the
-- rest of the list.
pub data Timers : Type 0 where
  nil : Timers
  cons : (id delta : ℕ) (children rest : Timers) → Timers

-- One timer, which is on no list.
pub record Timer : Type 0 where
  pub id : ℕ
  pub delta : ℕ
  pub children : Timers

abbrev pub timer : ℕ → ℕ → Timers → Timer
timer i d cs = record { id = i; delta = d; children = cs }

abbrev pub is_nil : Timers → Bool
is_nil nil = true
is_nil (cons i d cs ts) = false

-- `PrependItem`.
abbrev pub prepend : Timer → Timers → Timers
prepend t ts = cons t.id t.delta t.children ts

-- `AppendItem` of each timer of a list.
abbrev pub append : Timers → Timers → Timers
append nil us = us
append (cons i d cs ts) us = cons i d cs (append ts us)

abbrev pub append_item : Timers → Timer → Timers
append_item ts t = append ts (prepend t nil)

-- The later of two timers becomes a child of the other, with a delta from it.
abbrev pub under_last : Timer → Timer → Timer
under_last a b =
    timer a.id a.delta (append_item a.children (timer b.id (sub32 b.delta a.delta) b.children))

abbrev pub under_first : Timer → Timer → Timer
under_first a b =
    timer a.id a.delta (prepend (timer b.id (sub32 b.delta a.delta) b.children) a.children)

unfoldable pub pair : Timer → Timer → Timer
pair a b = if ltb b.delta a.delta then under_last b a else under_last a b

-- Step 1 of PairTimers: the items are paired left-to-right.
unfoldable pub pair_all : ℕ → Timers → List Timer
pair_all delta nil = []
pair_all delta (cons i d cs nil) = timer i (add32 d delta) cs ∷ []
pair_all delta (cons i d cs (cons j e ds ts)) =
    pair (timer i (add32 d delta) cs) (timer j (add32 e delta) ds) ∷ pair_all delta ts

unfoldable pub collect : Timer → Timer → Timer
collect a b = if ltb b.delta a.delta then under_first b a else under_first a b

-- Step 2: the items are collected right-to-left.
unfoldable pub collect_all : Timer → List Timer → Timer
collect_all a [] = a
collect_all a (b ∷ bs) = collect_all (collect a b) bs

-- The items of the new sublist, the last one first.
unfoldable pub collect_from : List Timer → Option Timer
collect_from [] = none
collect_from (a ∷ bs) = some (collect_all a bs)

abbrev pub append_some : Timers → Option Timer → Timers
append_some ts none = ts
append_some ts (some a) = append_item ts a

-- PairTimers(siblings, dest, delta), with the list that `dest` heads.
unfoldable pub pair_timers : Timers → Timers → ℕ → Result Timers
pair_timers siblings dest delta = do
  assert (not (is_nil siblings))
  ok (append_some dest (collect_from (reverse (pair_all delta siblings))))

-- AddTimer of a timer that has no children; the other assertion, that it is on no list, is `set`'s.
unfoldable pub add_timer : ℕ → ℕ → Timers → Timers
add_timer i ms nil = cons i ms nil nil
add_timer i ms (cons r d cs ts) =
    if ltb d ms
    then cons r d (prepend (timer i (sub32 ms d) nil) cs) ts
    else append_item ts (timer i ms (cons r (sub32 d ms) cs nil))

abbrev pub contains : ℕ → Timers → Bool
contains i nil = false
contains i (cons j d cs ts) = j == i || contains i cs || contains i ts

-- `if (!timerp->m_children.Empty()) PairTimers(...)`: the children, paired, in the timer's place.
unfoldable pub orphans : Timers → ℕ → Result Timers
orphans nil d = ok nil
orphans (cons k e cs ts) d = pair_timers (cons k e cs ts) nil d

-- RemoveTimer: PairTimers appends to the list as the timer to remove heads it, so before that timer.
unfoldable pub remove_timer : ℕ → Timers → Result Timers
remove_timer i nil = ok nil
remove_timer i (cons j d cs ts) = elim (j == i) [
  | true ↦ do up ← orphans cs d; ok (append up ts)
  | false ↦ do cs' ← remove_timer i cs; ts' ← remove_timer i ts; ok (cons j d cs' ts')
]

-- The children of a timer that has expired, with deltas from its parent.
abbrev pub raise : ℕ → Timers → Timers
raise delta nil = nil
raise delta (cons i d cs ts) = cons i (add32 d delta) cs (raise delta ts)

-- The loop of RunTimers over `m_timers`: its timers before `listp`, those from `listp` on, and the run
-- list. A timer on the run list has no children. Each round of fuel takes a timer off the heap's list.
unfoldable pub expire : ℕ → ℕ → Timers → Timers → List ℕ → Option (Timers × List ℕ)
expire zero ms before rest run = none
expire (suc fuel) ms before nil run = some (before, run)
expire (suc fuel) ms before (cons i d cs ts) run = elim (leb d ms) [
  | true ↦ expire fuel ms before (append ts (raise d cs)) (run ++ i ∷ [])
  | false ↦ expire fuel ms (append_item before (timer i (sub32 d ms) cs)) ts run
]

-- `Length()`.
abbrev pub list_length : Timers → ℕ
list_length nil = 0
list_length (cons i d cs ts) = suc (list_length ts)

abbrev pub size : Timers → ℕ
size nil = 0
size (cons i d cs ts) = suc (size cs + size ts)
