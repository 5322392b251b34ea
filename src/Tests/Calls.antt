-- ===== src/Tests/Calls.antt =====
-- Examples for the call and callsetup states of libhfp/hfp.cpp.
use nohands.Prelude.{◌≡◌, refl, true, false, none, some, pos, arith}
use nohands.Text.{codes}
use nohands.Gsm.{GsmClipResult, blank_clip}
use nohands.Faults.{ok}
use nohands.CallSetup.{
  idle, armed, clip_unknown, clip_waiting, Call, Env, updated, update_call_setup, timeout,
}
use nohands.Faults.Post.{Holds}
use nohands.CallSetup.Invariant.{Inv, Kept, Legal}
use nohands.CallSetup.Safe.{update_call_setup-Kept, timeout-Kept}
use nohands.CallSetup.Notify.{Tells, update_call_setup-Tells}
use nohands.CallSetup.Ring.{Rings, clip-Rings}

abbrev online : Env
online = record {
  connected = true;
  clip_enabled = true;
  timeout_clip = 250;
  timeout_ring = 5000;
  memory_left = true;
}

abbrev quiet : Call
quiet = record {
  state_call = true;
  state_callsetup = pos 0;
  callsetup_presumed = false;
  timer = idle;
  clip_timer = idle;
  clip_state = clip_unknown;
  clip_value = none;
}

-- A ring has come and the caller's identification is awaited.
abbrev waiting : Call
waiting = record {
  state_call = false;
  state_callsetup = pos 1;
  callsetup_presumed = true;
  timer = armed 5000;
  clip_timer = armed 250;
  clip_state = clip_waiting;
  clip_value = none;
}

abbrev alice : GsmClipResult
alice = record blank_clip { number = some (codes "5551234"); type = pos 129 }

quiet-Inv : Inv online quiet
quiet-Inv = record {
  clip = record {
    value_final = λ h. cc;
    waiting_armed = refl;
    waiting_incoming = λ h. cc;
    quiet = λ h. refl;
    timer_set_up = λ h. cc;
  };
  presumed_armed = refl;
  presumed_call = λ h. cc;
  timer_set_up = λ h k. cc;
}

waiting-Inv : Inv online waiting
waiting-Inv = record {
  clip = record {
    value_final = λ h. cc;
    waiting_armed = refl;
    waiting_incoming = λ h. refl;
    quiet = λ h. ground arith;
    timer_set_up = λ h. cc;
  };
  presumed_armed = refl;
  presumed_call = λ h k. ground arith;
  timer_set_up = λ h k. cc;
}

ring-Legal : Legal (pos 1) 1 none 5000
ring-Legal = record {
  none_clip = λ h. refl;
  none_ring = λ h. absurd (h refl);
  none_timeout = λ h. absurd (h refl);
}

update_call_setup-Kept_example :
    Holds (Kept online) (update_call_setup online (pos 1) 1 none 5000 quiet)
update_call_setup-Kept_example =
    update_call_setup-Kept online (pos 1) 1 none 5000 quiet ring-Legal quiet-Inv

timeout-Kept_example : Holds (Kept online) (timeout online (record waiting { timer = idle }))
timeout-Kept_example = timeout-Kept online waiting refl refl waiting-Inv

-- The call was active; the ring ends it, and the client is told of both changes.
abbrev rung_state : Call
rung_state = waiting

ring_run :
    update_call_setup online (pos 1) 1 none 5000 quiet
    ≡ ok (updated rung_state (some (record { upd_ac = true; upd_wc = true; do_ring = false })))
unfolding update_call_setup
ring_run = refl

update_call_setup-Tells_example :
    Tells quiet rung_state (some (record { upd_ac = true; upd_wc = true; do_ring = false }))
update_call_setup-Tells_example =
    update_call_setup-Tells online (pos 1) 1 none 5000 quiet rung_state
      (some (record { upd_ac = true; upd_wc = true; do_ring = false })) refl ring_run

clip-Rings_example :
    Holds (Rings (some alice)) (update_call_setup online (pos 1) 0 (some alice) 5000 waiting)
clip-Rings_example = clip-Rings online 5000 alice waiting refl refl waiting-Inv refl
