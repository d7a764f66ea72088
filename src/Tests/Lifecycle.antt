-- ===== src/Tests/Lifecycle.antt =====
-- One request to a worker.
use kide.Base.{
  ◌+◌, subst, ◌↔◌, ◌≡◌, refl, utf8, text_eq, nat_eq, ℕ_discrete, [], ◌∷◌, none, some, true, false,
}
use kide.Protocol.{WorkerEnvelope, handshake_request}
use kide.Supervisor.{WorkerLaunch, Surroundings, WorkerSupervisor, request_with_timeout}
use kide.Supervisor.{timeout, new_supervisor, err, duplicate_request_id}
use kide.Supervisor.Replies.{Settled, request_with_timeout-Settled}
use kide.Supervisor.Lifecycle.{Step, Reachable, IsWellFormed, Reachable-IsWellFormed}
use kide.Supervisor.Duplicates.{IsDuplicate, IsRepeated, duplicate_refused_iff}
use kide.Supervisor.Starts.{launched}

abbrev launch : WorkerLaunch
launch = record { idle_timeout = 30000; request_timeout = 30000 }

abbrev world : Surroundings
world = record {
  has_exited = false;
  spawns = true;
  encodes = true;
  write_error = none;
  reply = timeout;
  now = 5;
  written_at = 6;
  answered_at = 9;
}

abbrev hello : WorkerEnvelope
hello = record {
  protocol_version = 3;
  request_id = utf8 "r1";
  message = handshake_request (record { core_version = utf8 "0" });
}

request_with_timeout-Settled_example :
    Settled (utf8 "r1") (request_with_timeout launch world hello 100 new_supervisor)
request_with_timeout-Settled_example =
    request_with_timeout-Settled launch world hello 100 new_supervisor

-- One request to a new supervisor starts one process.
abbrev once : WorkerSupervisor
once = (request_with_timeout launch world hello 100 new_supervisor).1

-- The process did not answer in time, and a second request starts another one.
abbrev twice : WorkerSupervisor
twice = (request_with_timeout launch world hello 100 once).1

one_more : launched launch world hello once.running ≡ 1
unfolding request_with_timeout new_supervisor text_eq nat_eq ℕ_discrete
one_more = refl

second : Reachable (utf8 "0") launch 2 twice
unfolding new_supervisor nat_eq
second =
    subst (λ k. Reachable (utf8 "0") launch (1 + k) twice) one_more
      (Reachable.after
        (Reachable.after Reachable.initial (Step.requested world hello 100 new_supervisor))
        (Step.requested world hello 100 once))

Reachable-IsWellFormed_example : (twice.starts ≡ 2) × IsWellFormed twice
Reachable-IsWellFormed_example = Reachable-IsWellFormed (utf8 "0") launch 2 twice second

abbrev busy : WorkerSupervisor
busy = record {
  running = some (record { request_ids = utf8 "r1" ∷ []; last_activity = 4 });
  starts = 1;
}

duplicate_refused_iff_example :
    (IsDuplicate launch world hello 100 busy ↔ IsRepeated launch world hello busy.running)
    × ((request_with_timeout launch world hello 100 busy
          ≡ (err (duplicate_request_id (utf8 "r1")), busy))
        ↔ IsRepeated launch world hello busy.running)
duplicate_refused_iff_example = duplicate_refused_iff launch world hello 100 busy
