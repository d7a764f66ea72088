-- ===== src/Supervisor.antt =====
-- crates/kide-core/src/supervisor.rs: the life of one disposable worker process behind
-- `WorkerSupervisor`. What the operating system and the worker do during a call is the argument
-- `Surroundings`; times are milliseconds. The forwarding of stderr is not modelled.
pub mod Replies
pub mod Starts
pub mod Duplicates
pub mod Lifecycle
use kide.Base.{
  ℕ, suc, ◌-◌, Text, text_eq, nat_eq, List, [], ◌∷◌, Option, none, some, Bool, true, false, not,
}
use kide.Base.{◌==◌, ltb, leb, if◌then◌else◌, contains, is_some}
use kide.Framing.{FrameError}
use kide.Protocol.{WorkerEnvelope, WorkerError, WorkerMessage, HandshakeRequest, HandshakeResponse}
use kide.Protocol.{handshake_request, handshake_response, error, new_envelope}
use kide.Protocol.{worker_protocol_version, validate_protocol_version}

-- The limits of a launch; the command line and the environment are the operating system's.
pub record WorkerLaunch : Type 0 where
  pub idle_timeout : ℕ
  pub request_timeout : ℕ

pub data WorkerSupervisorError : Type 0 where
  start : WorkerSupervisorError
  frame : FrameError → WorkerSupervisorError
  invalid_response : WorkerSupervisorError
  timed_out : ℕ → WorkerSupervisorError
  exited : WorkerSupervisorError
  request_id_mismatch : Text → Text → WorkerSupervisorError
  duplicate_request_id : Text → WorkerSupervisorError
  incompatible_protocol : ℕ → ℕ → WorkerSupervisorError
  worker_reported : WorkerError → WorkerSupervisorError
  invalid_handshake : WorkerMessage → WorkerSupervisorError

pub data Result (A : Type 0) : Type 0 where
  ok : A → Result A
  err : WorkerSupervisorError → Result A

pub record RunningWorker : Type 0 where
  pub request_ids : List Text
  pub last_activity : ℕ

pub record WorkerSupervisor : Type 0 where
  pub running : Option RunningWorker
  pub starts : ℕ

-- What `recv_timeout` and the decoding of its envelope give.
pub data Reply : Type 0 where
  envelope : WorkerEnvelope → Reply
  undecodable : Reply
  broken : FrameError → Reply
  disconnected : Reply
  timeout : Reply

pub record Surroundings : Type 0 where
  -- `try_wait` reports the exit of the process that ran before the call
  pub has_exited : Bool
  -- `spawn` succeeds
  pub spawns : Bool
  -- the adapter takes the request, and then the pipe takes the frame
  pub encodes : Bool
  pub write_error : Option FrameError
  pub reply : Reply
  -- the clock at the call, at the write and at the response
  pub now : ℕ
  pub written_at : ℕ
  pub answered_at : ℕ

unfoldable pub new_supervisor : WorkerSupervisor
new_supervisor = record { running = none; starts = 0 }

unfoldable pub stop : WorkerSupervisor → WorkerSupervisor
stop s = record { running = none; starts = s.starts }

unfoldable pub discard_exited : Surroundings → WorkerSupervisor → WorkerSupervisor
discard_exited world s =
    if world.has_exited then record { running = none; starts = s.starts } else s

unfoldable pub is_running : Surroundings → WorkerSupervisor → Bool × WorkerSupervisor
unfolding discard_exited
is_running world s =
    let after : WorkerSupervisor = discard_exited world s in (is_some after.running, after)

abbrev pub is_expired : WorkerLaunch → ℕ → Option RunningWorker → Bool
is_expired launch now none = false
is_expired launch now (some worker) = leb launch.idle_timeout (now - worker.last_activity)

unfoldable pub reap_idle : WorkerLaunch → ℕ → WorkerSupervisor → Bool × WorkerSupervisor
unfolding stop
reap_idle launch now s =
    let expired = is_expired launch now s.running in (expired, (if expired then stop s else s))

unfoldable pub fresh_worker : ℕ → RunningWorker
fresh_worker now = record { request_ids = []; last_activity = now }

-- `ensure_running` behind its `discard_exited`: the worker that takes the request.
unfoldable pub start_if_needed :
    Surroundings → WorkerSupervisor → Result (RunningWorker × WorkerSupervisor)
unfolding fresh_worker
start_if_needed world s = elim s.running [
  | some worker ↦ ok (worker, s)
  | none ↦
      if world.spawns
      then ok (
        fresh_worker world.now,
        record { running = some (fresh_worker world.now); starts = suc s.starts },
      )
      else err start
]

abbrev pub with_worker : WorkerSupervisor → RunningWorker → WorkerSupervisor
with_worker s worker = record { running = some worker; starts = s.starts }

abbrev pub used : RunningWorker → Text → ℕ → RunningWorker
used worker id at = record { request_ids = id ∷ worker.request_ids; last_activity = at }

-- The checks on a decoded envelope, in order, with the clock of the response.
unfoldable pub accept_envelope :
    Text
    → ℕ
    → WorkerEnvelope
    → RunningWorker
    → WorkerSupervisor
    → Result WorkerEnvelope × WorkerSupervisor
unfolding stop
accept_envelope id at e worker s =
    if not (e.protocol_version == worker_protocol_version)
    then (err (incompatible_protocol e.protocol_version worker_protocol_version), stop s)
    else if not (e.request_id == id)
    then (err (request_id_mismatch id e.request_id), stop s)
    else elim e.message [
      | error reported ↦ (err (worker_reported reported), s)
      | _ ↦ (ok e, with_worker s (record { request_ids = worker.request_ids; last_activity = at }))
    ]

unfoldable pub receive :
    Surroundings
    → ℕ
    → Text
    → RunningWorker
    → WorkerSupervisor
    → Result WorkerEnvelope × WorkerSupervisor
unfolding accept_envelope stop
receive world limit id worker s = elim world.reply [
  | envelope e ↦ accept_envelope id world.answered_at e worker s
  | undecodable ↦ (err invalid_response, s)
  | broken e ↦ (err (frame e), stop s)
  | disconnected ↦ (err exited, stop s)
  | timeout ↦ (err (timed_out limit), stop s)
]

-- From the insertion of the request id to the receipt.
unfoldable pub exchange :
    Surroundings
    → ℕ
    → Text
    → RunningWorker
    → WorkerSupervisor
    → Result WorkerEnvelope × WorkerSupervisor
unfolding receive
exchange world limit id worker s =
    let noted = used worker id worker.last_activity in
    let sent = used worker id world.written_at in
    if contains worker.request_ids id
    then (err (duplicate_request_id id), s)
    else if not world.encodes
    then (err invalid_response, with_worker s noted)
    else elim world.write_error [
      | some e ↦ (err (frame e), with_worker s noted)
      | none ↦ receive world limit id sent (with_worker s sent)
    ]

abbrev pub smaller : ℕ → ℕ → ℕ
smaller a b = if ltb b a then b else a

unfoldable pub received_version : WorkerError → ℕ
received_version e = elim e.received_protocol_version [ some version ↦ version | none ↦ 0 ]

unfoldable pub exchange_started :
    Surroundings
    → ℕ
    → Text
    → Result (RunningWorker × WorkerSupervisor)
    → WorkerSupervisor
    → Result WorkerEnvelope × WorkerSupervisor
unfolding exchange
exchange_started world limit id (ok (worker, started)) s = exchange world limit id worker started
exchange_started world limit id (err e) s = (err e, s)

unfoldable pub request_with_timeout :
    WorkerLaunch
    → Surroundings
    → WorkerEnvelope
    → ℕ
    → WorkerSupervisor
    → Result WorkerEnvelope × WorkerSupervisor
unfolding validate_protocol_version received_version reap_idle discard_exited start_if_needed
    exchange_started
request_with_timeout launch world request limit s = elim (validate_protocol_version request) [
  | some e ↦ (err (incompatible_protocol (received_version e) e.supported_protocol_version), s)
  | none ↦
      let reaped : WorkerSupervisor = (reap_idle launch world.now s).1 in
      let live : WorkerSupervisor = discard_exited world reaped in
      exchange_started world (smaller limit launch.request_timeout) request.request_id
        (start_if_needed world live) live
]

unfoldable pub request_worker :
    WorkerLaunch
    → Surroundings
    → WorkerEnvelope
    → WorkerSupervisor
    → Result WorkerEnvelope × WorkerSupervisor
unfolding request_with_timeout
request_worker launch world request s =
    request_with_timeout launch world request launch.request_timeout s

unfoldable pub accept_handshake :
    Result WorkerEnvelope × WorkerSupervisor → Result HandshakeResponse × WorkerSupervisor
unfolding stop
accept_handshake (err e, s) = (err e, s)
accept_handshake (ok e, s) = elim e.message [
  | handshake_response response ↦
      if not (response.capabilities.protocol_version == worker_protocol_version)
      then (
        err (incompatible_protocol response.capabilities.protocol_version worker_protocol_version),
        stop s,
      )
      else (ok response, s)
  | _ ↦ (err (invalid_handshake e.message), s)
]

unfoldable pub handshake :
    Text
    → WorkerLaunch
    → Surroundings
    → Text
    → WorkerSupervisor
    → Result HandshakeResponse × WorkerSupervisor
unfolding request_worker accept_handshake new_envelope
handshake core_version launch world id s = accept_handshake (
    request_worker launch world
      (new_envelope id (handshake_request (record { core_version = core_version }))) s)
