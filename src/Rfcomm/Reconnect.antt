-- ===== src/Rfcomm/Reconnect.antt =====
-- AddAutoReconnect, RemoveAutoReconnect, Start and Stop of RfcommService in libhfp/rfcomm.cpp.
use nohands.Prelude.{
  ℕ, Bool, true, false, not, ◌&&◌, ◌||◌, List, [], ◌∷◌, ◌++◌, ◌==◌, if◌then◌else◌, is_empty,
}
use nohands.Faults.{Result, ok, ◌>>◌, assert}
use nohands.Rfcomm.{Service, is_rfc_disconnected}

abbrev pub member : ℕ → List ℕ → Bool
member i [] = false
member i (j ∷ js) = j == i || member i js

abbrev pub unlink : ℕ → List ℕ → List ℕ
unlink i [] = []
unlink i (j ∷ js) = if j == i then js else j ∷ unlink i js

-- `!m_autoreconnect_links.Empty()`.
abbrev pub listed : ℕ → Service → Bool
listed i w = member i w.list || member i w.now_list || member i w.retry

-- AddAutoReconnect. A timer that is not set yet is set.
unfoldable pub add_auto_reconnect : Bool → ℕ → Service → Result Service
add_auto_reconnect now i w = do
  assert (not (listed i w))
  assert (is_rfc_disconnected (w.sessions i).state)
  if now
      then ok (record w { now_set = w.now_set || w.now_timer; now_list = w.now_list ++ i ∷ [] })
      else ok (record w { list_set = w.list_set || w.timer; list = w.list ++ i ∷ [] })

-- A timer is cancelled when its list has become empty.
abbrev pub still_set : Bool → List ℕ → Bool → Bool
still_set timer list set = if timer && is_empty list && set then false else set

-- RemoveAutoReconnect.
unfoldable pub remove_auto_reconnect : ℕ → Service → Result Service
remove_auto_reconnect i w = do
  assert (listed i w)
  let list = unlink i w.list
  let now_list = unlink i w.now_list
  ok (record w {
    list = list;
    now_list = now_list;
    retry = unlink i w.retry;
    list_set = still_set w.timer list w.list_set;
    now_set = still_set w.now_timer now_list w.now_set;
  })

-- Stop.
unfoldable pub stop : Service → Service
stop w = record w {
  list_set = if w.timer then false else w.list_set;
  timer = false;
  now_set = if w.now_timer then false else w.now_set;
  now_timer = false;
}

abbrev pub started : Service → Service
started w = record w {
  timer = true;
  now_timer = true;
  list_set = if not (is_empty w.list) && not w.list_set then true else w.list_set;
  now_set = if not (is_empty w.now_list) && not w.now_set then true else w.now_set;
}

-- Start; the flags are whether the two timers can be created.
unfoldable pub start : Bool → Bool → Service → Result (Service × Bool)
start new_timer new_now_timer w = do
  assert (not w.timer)
  assert (not w.now_timer)
  if not new_timer
      then ok (w, false)
      else if not new_now_timer
      then ok (stop (record w { timer = true }), false)
      else ok (started w, true)
