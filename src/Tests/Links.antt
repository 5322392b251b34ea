-- ===== src/Tests/Links.antt =====
-- Examples for the connections of libhfp/rfcomm.cpp.
use nohands.Prelude.{
  ℕ, ◌≡◌, ◌∙◌, ◌⊎◌, refl, sym, inl, inr, true, false, [], ◌∷◌, ◌==◌, if◌then◌else◌, Bool-cases,
  arith,
}
use nohands.Faults.Post.{Holds}
use nohands.Session.{disconnected}
use nohands.Rfcomm.{rfc_disconnected, RfcommSession, Service, put}
use nohands.Rfcomm.Invariant.{Ok}
use nohands.Rfcomm.Retries.{Settled}
use nohands.Rfcomm.Serve.{reconnect_timer, reconnect_to, serve, here, next}
use nohands.Rfcomm.Safe.{serve-Settled}
use nohands.Rfcomm.Timeouts.{never_forgotten}
use nohands.Rfcomm.Redials.{Looking}
use nohands.Rfcomm.Requests.{set_auto_reconnect, auto_reconnect_timeout}
use nohands.Rfcomm.Reconnect.{add_auto_reconnect}
use nohands.Faults.{ok}

-- A session that nobody has connected, and to which the client has one reference.
abbrev fresh : RfcommSession
fresh = record {
  state = rfc_disconnected;
  conn_state = disconnected;
  sdp_task = false;
  inbound = false;
  dcvoluntary = false;
  sock = false;
  notifier = false;
  autoreconnect = false;
  operation_timeout = false;
  refs = 1;
}

-- A session that waits for its phone.
abbrev waiting : RfcommSession
waiting = record fresh { autoreconnect = true; refs = 2 }

abbrev phones : Service
phones = record {
  sessions = λ j. if j == 7 then waiting else fresh;
  list = 7 ∷ [];
  list_set = true;
  timer = true;
  now_list = [];
  now_set = false;
  now_timer = true;
  retry = [];
}

same_test : (i : ℕ) → (i == 7) ≡ (7 == i)
same_test i = ground arith

phones-Ok : (i : ℕ) → Ok (λ j. 1) i phones
phones-Ok i = elim (Bool-cases (i == 7)) [
  | inl e ↦ rw (e, sym (same_test i) ∙ e) ((refl, refl, refl, refl, refl), refl, refl)
  | inr e ↦ rw (e, sym (same_test i) ∙ e) ((refl, refl, refl, refl, refl), refl, refl)
]

phones-Settled : Settled (λ j. 1) phones
phones-Settled = record {
  inv = record { every = phones-Ok; flags = (refl, refl); paired = refl };
  retry_empty = refl;
}

serve-Settled_example :
    Holds (Settled (λ j. 1)) (serve (reconnect_timer false (λ j. (true, false))) phones)
serve-Settled_example =
    serve-Settled (λ j. 1) phones (reconnect_timer false (λ j. (true, false))) phones-Settled refl

-- A started service whose sessions nobody has connected.
abbrev calm : Service
calm = record phones { sessions = λ j. fresh; list = []; list_set = false }

calm-Settled : Settled (λ j. 1) calm
calm-Settled = record {
  inv = record {
    every = λ i. ((refl, refl, refl, refl, refl), refl, refl);
    flags = (refl, refl);
    paired = refl;
  };
  retry_empty = refl;
}

-- Session 7 is to be connected automatically.
abbrev asked : Service
asked = record (put 7 waiting calm) { now_set = true; now_list = 7 ∷ [] }

asked_run : serve (reconnect_to 7 true) calm ≡ ok asked
unfolding serve set_auto_reconnect add_auto_reconnect
asked_run = refl

never_forgotten_example :
    Holds (Looking 7) (auto_reconnect_timeout false (λ j. (true, true)) asked)
    ⊎ Holds (Looking 7) (auto_reconnect_timeout true (λ j. (true, true)) asked)
never_forgotten_example =
    never_forgotten (λ j. 1) (λ j. (true, true)) 7 calm-Settled
      (next (reconnect_to 7 true) here tt asked_run) refl refl refl refl
