-- ===== src/Rfcomm/Frame.antt =====
-- What an operation on one session leaves alone, and the lists of the service.
use nohands.Prelude.{
  ℕ, suc, ◌+◌, ◌-◌, ◌≤◌, ◌≡◌, ◌≢◌, refl, ◌∙◌, Bool, true, false, not, ◌&&◌, ◌||◌, List, [], ◌∷◌,
  ◌++◌, ◌==◌, if◌then◌else◌, is_empty, length, arith,
}
use nohands.Faults.Post.{Holds}
use nohands.Rfcomm.{RfcommSession, Service, put, is_rfc_disconnected}
use nohands.Rfcomm.Reconnect.{
  member, unlink, listed, still_set, add_auto_reconnect, remove_auto_reconnect,
}

abbrev pub count : ℕ → List ℕ → ℕ
count i [] = 0
count i (j ∷ js) = if j == i then suc (count i js) else count i js

-- How often a session is on the lists.
abbrev pub on_lists : ℕ → Service → ℕ
on_lists i w = count i w.list + count i w.now_list + count i w.retry

-- A timer that has been created is set exactly if its list is not empty. While AutoReconnectTimeout
-- runs, the delayed timer need not be set.
abbrev pub Flags : Bool → Service → Type 0
Flags true w =
    (w.now_set ≡ (w.now_timer && not (is_empty w.now_list)))
    × (w.list_set ≡ (w.timer && not (is_empty w.list)))
Flags false w =
    (w.now_set ≡ (w.now_timer && not (is_empty w.now_list)))
    × (w.list_set ≡ true → (w.timer && not (is_empty w.list)) ≡ true)

-- `w'` differs from `w` in session `i` only, and where it stands on the lists.
pub record Frame (i : ℕ) (w w' : Service) : Type 0 where
  pub others : (j : ℕ) → i ≢ j → w'.sessions j ≡ w.sessions j
  pub places : (j : ℕ) → i ≢ j → on_lists j w' ≡ on_lists j w
  pub timers : w'.timer ≡ w.timer
  pub now_timers : w'.now_timer ≡ w.now_timer
  pub flags : (settled : Bool) → Flags settled w → Flags settled w'
  pub retry_le : length w'.retry ≤ length w.retry
  pub retry_kept : (j : ℕ) → i ≢ j → count j w'.retry ≡ count j w.retry

pub Frame-refl : (i : ℕ) (w : Service) → Frame i w w
Frame-refl i w = record {
  others = λ j n. refl;
  places = λ j n. refl;
  timers = refl;
  now_timers = refl;
  flags = λ b f. f;
  retry_le = omega arith;
  retry_kept = λ j n. refl;
}

pub Frame-trans : (i : ℕ) (w w' w'' : Service) → Frame i w w' → Frame i w' w'' → Frame i w w''
Frame-trans i w w' w'' h k = record {
  others = λ j n. k.others j n ∙ h.others j n;
  places = λ j n. k.places j n ∙ h.places j n;
  timers = k.timers ∙ h.timers;
  now_timers = k.now_timers ∙ h.now_timers;
  flags = λ b f. k.flags b (h.flags b f);
  retry_le = omega (arith, h.retry_le, k.retry_le);
  retry_kept = λ j n. k.retry_kept j n ∙ h.retry_kept j n;
}

pub put-Frame : (i : ℕ) (s : RfcommSession) (w : Service) → Frame i w (put i s w)
put-Frame i s w = record {
  others = λ j n. ground arith;
  places = λ j n. refl;
  timers = refl;
  now_timers = refl;
  flags = λ b f. put_flags b f;
  retry_le = omega arith;
  retry_kept = λ j n. refl;
}
  where
    put_flags : (b : Bool) → Flags b w → Flags b (put i s w)
    put_flags true f = f
    put_flags false f = f

pub put-get : (i : ℕ) (s : RfcommSession) (w : Service) → (put i s w).sessions i ≡ s
put-get i s w = ground arith

pub count-append : (i j : ℕ) (js : List ℕ) → count i (js ++ j ∷ []) ≡ count i js + count i (j ∷ [])
count-append i j [] = omega arith
count-append i j (k ∷ js) = ground (arith, count-append i j js)

pub is_empty-append : (j : ℕ) (js : List ℕ) → is_empty (js ++ j ∷ []) ≡ false
is_empty-append j [] = refl
is_empty-append j (k ∷ js) = refl

count-unlink_other : (i j : ℕ) (js : List ℕ) → i ≢ j → count j (unlink i js) ≡ count j js
count-unlink_other i j [] h = refl
count-unlink_other i j (k ∷ js) h = ground (arith, count-unlink_other i j js)

count-unlink : (i : ℕ) (js : List ℕ) → count i (unlink i js) ≡ count i js - 1
count-unlink i [] = omega arith
count-unlink i (k ∷ js) = ground (arith, count-unlink i js)

is_empty-unlink : (i : ℕ) (js : List ℕ) → is_empty js ≡ true → is_empty (unlink i js) ≡ true
is_empty-unlink i [] h = refl
is_empty-unlink i (k ∷ js) h = cc

length-unlink : (i : ℕ) (js : List ℕ) → length (unlink i js) ≤ length js
length-unlink i [] = omega arith
length-unlink i (k ∷ js) = ground (arith, length-unlink i js)

pub count-member : (i : ℕ) (js : List ℕ) → member i js ≡ false → count i js ≡ 0
count-member i [] h = refl
count-member i (k ∷ js) h = ground (arith, count-member i js)

member-count : (i : ℕ) (js : List ℕ) → count i js ≡ 0 → member i js ≡ false
member-count i [] h = refl
member-count i (k ∷ js) h = ground (arith, member-count i js)

pub not_listed : (i : ℕ) (w : Service) → on_lists i w ≡ 0 → listed i w ≡ false
not_listed i w h =
    ground (arith, member-count i w.list, member-count i w.now_list, member-count i w.retry)

pub is_listed : (i : ℕ) (w : Service) → on_lists i w ≡ 1 → listed i w ≡ true
is_listed i w h =
    ground (arith, count-member i w.list, count-member i w.now_list, count-member i w.retry)

-- An operation on session `i` has left it as `s`, and `n` times on the lists.
pub record Leads (i : ℕ) (w : Service) (s : RfcommSession) (n : ℕ) (w' : Service) : Type 0 where
  pub frame : Frame i w w'
  pub session : w'.sessions i ≡ s
  pub places : on_lists i w' ≡ n

module _ (i : ℕ) (w : Service) where
  -- AddAutoReconnect, to the one list or the other.
  now_added : Service
  now_added = record w { now_set = w.now_set || w.now_timer; now_list = w.now_list ++ i ∷ [] }

  later_added : Service
  later_added = record w { list_set = w.list_set || w.timer; list = w.list ++ i ∷ [] }

  now-Flags : (b : Bool) → Flags b w → Flags b now_added
  unfolding now_added
  now-Flags true f = ground (arith, is_empty-append i w.now_list)
  now-Flags false f = (ground (arith, is_empty-append i w.now_list), f.1)

  later-Flags : (b : Bool) → Flags b w → Flags b later_added
  unfolding later_added
  later-Flags true f = ground (arith, is_empty-append i w.list)
  later-Flags false f = (f.0, λ e. ground (arith, f.1, is_empty-append i w.list))

  now_Leads : on_lists i w ≡ 0 → Leads i w (w.sessions i) 1 now_added
  unfolding now_added
  now_Leads h = record {
    frame = record {
      others = λ j n. refl;
      places = λ j n. ground (arith, count-append j i w.now_list);
      timers = refl;
      now_timers = refl;
      flags = now-Flags;
      retry_le = omega arith;
      retry_kept = λ j n. refl;
    };
    session = refl;
    places = ground (arith, count-append i i w.now_list);
  }

  later_Leads : on_lists i w ≡ 0 → Leads i w (w.sessions i) 1 later_added
  unfolding later_added
  later_Leads h = record {
    frame = record {
      others = λ j n. refl;
      places = λ j n. ground (arith, count-append j i w.list);
      timers = refl;
      now_timers = refl;
      flags = later-Flags;
      retry_le = omega arith;
      retry_kept = λ j n. refl;
    };
    session = refl;
    places = ground (arith, count-append i i w.list);
  }

  pub add-Leads :
      (now : Bool)
      → on_lists i w ≡ 0
      → is_rfc_disconnected (w.sessions i).state ≡ true
      → Holds (Leads i w (w.sessions i) 1) (add_auto_reconnect now i w)
  unfolding add_auto_reconnect now_added later_added
  add-Leads true h d = rw (not_listed i w h, d) (now_Leads h)
  add-Leads false h d = rw (not_listed i w h, d) (later_Leads h)

  removed : Service
  removed = record w {
    list = unlink i w.list;
    now_list = unlink i w.now_list;
    retry = unlink i w.retry;
    list_set = still_set w.timer (unlink i w.list) w.list_set;
    now_set = still_set w.now_timer (unlink i w.now_list) w.now_set;
  }

  removed-Flags : (b : Bool) → Flags b w → Flags b removed
  unfolding removed
  removed-Flags true f = ground (arith, is_empty-unlink i w.list, is_empty-unlink i w.now_list)
  removed-Flags false f = (
    ground (arith, is_empty-unlink i w.now_list),
    λ e. ground (arith, f.1, is_empty-unlink i w.list),
  )

  removed-Leads : on_lists i w ≡ 1 → Leads i w (w.sessions i) 0 removed
  unfolding removed
  removed-Leads h = record {
    frame = record {
      others = λ j n. refl;
      places = λ j n. omega (
        arith,
        count-unlink_other i j w.list n,
        count-unlink_other i j w.now_list n,
        count-unlink_other i j w.retry n,
      );
      timers = refl;
      now_timers = refl;
      flags = removed-Flags;
      retry_le = length-unlink i w.retry;
      retry_kept = λ j n. count-unlink_other i j w.retry n;
    };
    session = refl;
    places =
        omega (arith, count-unlink i w.list, count-unlink i w.now_list, count-unlink i w.retry);
  }

  pub remove-Leads :
      on_lists i w ≡ 1 → Holds (Leads i w (w.sessions i) 0) (remove_auto_reconnect i w)
  unfolding remove_auto_reconnect removed
  remove-Leads h = rw (is_listed i w h) (removed-Leads h)
