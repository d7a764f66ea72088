-- ===== src/Supervisor/Lifecycle.antt =====
-- The states that a supervisor can reach, and what one request does to them.
use kide.Base.{
  ℕ, ◌+◌, ◌∙◌, ◌≤◌, ◌≡◌, refl, Text, text_eq, List, [], ◌∷◌, Option, none, some, false, not, arith,
}
use kide.Base.{contains, if◌then◌else◌}
use kide.Protocol.{WorkerEnvelope, worker_protocol_version, validate_protocol_version}
use kide.Protocol.{HandshakeResponse, handshake_response, handshake_request, new_envelope}
use kide.Base.{◌==◌, nat_eq}
use kide.Supervisor.{incompatible_protocol, invalid_handshake, Result, ok, err, frame}
use kide.Supervisor.{
  worker_reported, RunningWorker, WorkerSupervisor, Surroundings, Reply, envelope,
}
use kide.Supervisor.{undecodable, broken, disconnected, timeout, WorkerLaunch, new_supervisor, stop}
use kide.Supervisor.{discard_exited, is_running, is_expired, reap_idle, fresh_worker, used}
use kide.Supervisor.{with_worker, start_if_needed, accept_envelope, receive, exchange, smaller}
use kide.Supervisor.{exchange_started, request_with_timeout, request_worker, accept_handshake}
use kide.Supervisor.{handshake}
use kide.Supervisor.Starts.{launched, request-Counts, accept_handshake-Counts}
use kide.Supervisor.Replies.{if_case, option_case, message_case}

abbrev pub Distinct : List Text → Type 0
Distinct [] = Unit
Distinct (x ∷ xs) = (contains xs x ≡ false) × Distinct xs

abbrev pub Keeps : Option RunningWorker → ℕ → Type 0
Keeps none starts = Unit
Keeps (some worker) starts = Distinct worker.request_ids × (1 ≤ starts)

-- A running process is among those that were started, and it was sent no request id twice.
abbrev pub IsWellFormed : WorkerSupervisor → Type 0
IsWellFormed s = Keeps s.running s.starts

abbrev pub hello : Text → Text → WorkerEnvelope
hello core_version id = new_envelope id (handshake_request (record { core_version = core_version }))

-- One call of a public method, whatever happens around it, and the number of processes that it
-- starts.
pub data Step (core_version : Text) (launch : WorkerLaunch)
    : ℕ → WorkerSupervisor → WorkerSupervisor → Type 0 where
  requested :
      (world : Surroundings) (request : WorkerEnvelope) (limit : ℕ) (s : WorkerSupervisor)
      → Step core_version launch
          (launched launch world request s.running)
          s
          (request_with_timeout launch world request limit s).1
  shaken :
      (world : Surroundings) (id : Text) (s : WorkerSupervisor)
      → Step core_version launch
          (launched launch world (hello core_version id) s.running)
          s
          (handshake core_version launch world id s).1
  reaped :
      (now : ℕ) (s : WorkerSupervisor) → Step core_version launch 0 s (reap_idle launch now s).1
  stopped : (s : WorkerSupervisor) → Step core_version launch 0 s (stop s)
  looked :
      (world : Surroundings) (s : WorkerSupervisor)
      → Step core_version launch 0 s (is_running world s).1

-- The states that calls reach from the creation, with the number of processes that they started.
pub data Reachable (core_version : Text) (launch : WorkerLaunch)
    : ℕ → WorkerSupervisor → Type 0 where
  initial : Reachable core_version launch 0 new_supervisor
  after :
      {n k : ℕ} {s t : WorkerSupervisor}
      → Reachable core_version launch n s
      → Step core_version launch k s t
      → Reachable core_version launch (n + k) t

-- What an outcome leaves is well-formed.
record Fine {A : Type 0} (outcome : Result A × WorkerSupervisor) : Type 0 where
  pub kept : IsWellFormed outcome.1

fine : {A : Type 0} {r : Result A} {s : WorkerSupervisor} → IsWellFormed s → Fine (r, s)
fine w = record { kept = w }

discard_exited-IsWellFormed :
    (world : Surroundings) (s : WorkerSupervisor)
    → IsWellFormed s
    → IsWellFormed (discard_exited world s)
unfolding discard_exited
discard_exited-IsWellFormed world s w = if_case IsWellFormed world.has_exited _ s (λ h. tt) (λ h. w)

reap_idle-IsWellFormed :
    (launch : WorkerLaunch) (now : ℕ) (s : WorkerSupervisor)
    → IsWellFormed s
    → IsWellFormed (reap_idle launch now s).1
unfolding reap_idle stop
reap_idle-IsWellFormed launch now s w =
    if_case IsWellFormed (is_expired launch now s.running) _ s (λ h. tt) (λ h. w)

accept_envelope-IsWellFormed :
    (id : Text) (at : ℕ) (e : WorkerEnvelope) (worker : RunningWorker) (s : WorkerSupervisor)
    → IsWellFormed (with_worker s worker)
    → IsWellFormed s
    → Fine (accept_envelope id at e worker s)
unfolding accept_envelope stop
accept_envelope-IsWellFormed id at e worker s w v =
    if_case Fine (not (e.protocol_version == worker_protocol_version)) _ _ (λ bad. fine tt)
      (λ version.
        if_case Fine (not (e.request_id == id)) _ _ (λ bad. fine tt)
          (λ same.
            message_case Fine e.message (λ reported. (err (worker_reported reported), s))
              (
                ok e,
                with_worker s (record { request_ids = worker.request_ids; last_activity = at }),
              )
              (λ reported. fine v) (λ good. fine w)))

receive-IsWellFormed :
    (world : Surroundings) (limit : ℕ) (id : Text) (worker : RunningWorker) (s : WorkerSupervisor)
    (reply : Reply)
    → world.reply ≡ reply
    → IsWellFormed (with_worker s worker)
    → IsWellFormed s
    → Fine (receive world limit id worker s)
unfolding receive stop
receive-IsWellFormed world limit id worker s (envelope e) r w v =
    rw (r, receive) (accept_envelope-IsWellFormed id world.answered_at e worker s w v)
receive-IsWellFormed world limit id worker s undecodable r w v = rw (r, receive) (fine v)
receive-IsWellFormed world limit id worker s (broken e) r w v = rw (r, receive) (fine tt)
receive-IsWellFormed world limit id worker s disconnected r w v = rw (r, receive) (fine tt)
receive-IsWellFormed world limit id worker s timeout r w v = rw (r, receive) (fine tt)

exchange-IsWellFormed :
    (world : Surroundings) (limit : ℕ) (id : Text) (worker : RunningWorker) (s : WorkerSupervisor)
    → IsWellFormed (with_worker s worker)
    → IsWellFormed s
    → Fine (exchange world limit id worker s)
unfolding exchange
exchange-IsWellFormed world limit id worker s (distinct, counted) v =
    let sent : RunningWorker = used worker id world.written_at in
    if_case Fine (contains worker.request_ids id) _ _ (λ bad. fine v)
      (λ fresh.
        if_case Fine (not world.encodes) _ _ (λ bad. fine ((fresh, distinct), counted))
          (λ encoded.
            option_case Fine world.write_error
              (λ e. (err (frame e), with_worker s (used worker id worker.last_activity)))
              (receive world limit id sent (with_worker s sent))
              (λ e. fine ((fresh, distinct), counted))
              (receive-IsWellFormed world limit id sent (with_worker s sent) world.reply refl
                ((fresh, distinct), counted) ((fresh, distinct), counted))))

-- The worker that takes the request is the one of the supervisor.
abbrev Ready : Result (RunningWorker × WorkerSupervisor) → Type 0
Ready (ok (worker, s)) = IsWellFormed (with_worker s worker) × IsWellFormed s
Ready (err e) = Unit

start_if_needed-Ready :
    (world : Surroundings) (running : Option RunningWorker) (starts : ℕ)
    → Keeps running starts
    → Ready (start_if_needed world (record { running = running; starts = starts }))
unfolding start_if_needed fresh_worker
start_if_needed-Ready world (some worker) starts w = (w, w)
start_if_needed-Ready world none starts w =
    if_case Ready world.spawns _ _ (λ good. ((tt, omega arith), (tt, omega arith))) (λ bad. tt)

exchange_started-IsWellFormed :
    (world : Surroundings) (limit : ℕ) (id : Text) (s : WorkerSupervisor)
    (started : Result (RunningWorker × WorkerSupervisor))
    → Ready started
    → IsWellFormed s
    → Fine (exchange_started world limit id started s)
unfolding exchange_started
exchange_started-IsWellFormed world limit id s (ok (worker, started)) (w, v) u =
    exchange-IsWellFormed world limit id worker started w v
exchange_started-IsWellFormed world limit id s (err e) r u = fine u

request-IsWellFormed :
    (launch : WorkerLaunch) (world : Surroundings) (request : WorkerEnvelope) (limit : ℕ)
    (s : WorkerSupervisor)
    → IsWellFormed s
    → Fine (request_with_timeout launch world request limit s)
unfolding request_with_timeout
request-IsWellFormed launch world request limit s w =
    let reaped : WorkerSupervisor = (reap_idle launch world.now s).1 in
    let live : WorkerSupervisor = discard_exited world reaped in
    let kept =
      discard_exited-IsWellFormed world reaped (reap_idle-IsWellFormed launch world.now s w) in
    option_case Fine (validate_protocol_version request) _ _ (λ e. fine w)
      (exchange_started-IsWellFormed world (smaller limit launch.request_timeout) request.request_id
        live (start_if_needed world live)
        (start_if_needed-Ready world live.running live.starts kept) kept)

accept_handshake-IsWellFormed :
    (outcome : Result WorkerEnvelope × WorkerSupervisor)
    → Fine outcome
    → Fine (accept_handshake outcome)
unfolding accept_handshake stop
accept_handshake-IsWellFormed (err e, s) w = fine w.kept
accept_handshake-IsWellFormed (ok e, s) w =
    elim e.message
      as (λ message. Fine {A = HandshakeResponse} (elim message [
        | handshake_response response ↦
            if not (response.capabilities.protocol_version == worker_protocol_version)
            then (
              err (
                  incompatible_protocol response.capabilities.protocol_version
                    worker_protocol_version),
              stop s,
            )
            else (ok response, s)
        | _ ↦ (err (invalid_handshake e.message), s)
      ])) [
        | handshake_response response ↦
            if_case Fine (not (response.capabilities.protocol_version == worker_protocol_version)) _
              _ (λ bad. fine tt) (λ good. fine w.kept)
        | _ ↦ fine w.kept
      ]

step-IsWellFormed :
    (core_version : Text) (launch : WorkerLaunch) (k : ℕ) (s t : WorkerSupervisor)
    → Step core_version launch k s t
    → IsWellFormed s
    → IsWellFormed t
unfolding handshake request_worker is_running stop
step-IsWellFormed core_version launch _ _ _ (Step.requested world request limit s) w =
    (request-IsWellFormed launch world request limit s w).kept
step-IsWellFormed core_version launch _ _ _ (Step.shaken world id s) w =
    (accept_handshake-IsWellFormed _
      (request-IsWellFormed launch world (hello core_version id) launch.request_timeout s w)).kept
step-IsWellFormed core_version launch _ _ _ (Step.reaped now s) w =
    reap_idle-IsWellFormed launch now s w
step-IsWellFormed core_version launch _ _ _ (Step.stopped s) w = tt
step-IsWellFormed core_version launch _ _ _ (Step.looked world s) w =
    discard_exited-IsWellFormed world s w

step_counts :
    (core_version : Text) (launch : WorkerLaunch) (k : ℕ) (s t : WorkerSupervisor)
    → Step core_version launch k s t
    → t.starts ≡ s.starts + k
unfolding handshake request_worker is_running stop reap_idle discard_exited
step_counts core_version launch _ _ _ (Step.requested world request limit s) =
    request-Counts launch world request limit s
step_counts core_version launch _ _ _ (Step.shaken world id s) =
    accept_handshake-Counts
      (request_with_timeout launch world (hello core_version id) launch.request_timeout s)
    ∙ request-Counts launch world (hello core_version id) launch.request_timeout s
step_counts core_version launch _ _ _ (Step.reaped now s) = ground arith
step_counts core_version launch _ _ _ (Step.stopped s) = omega arith
step_counts core_version launch _ _ _ (Step.looked world s) = ground arith

-- In every state that a supervisor can reach from its creation, through calls of its public methods
-- in any order and whatever the processes do, `starts` is the number of processes that the calls
-- started, a running process is one of them, and no request id was sent to it twice. A request or a
-- handshake starts a process if it is in the version of the protocol, no process is live, and the
-- spawn succeeds.
pub Reachable-IsWellFormed :
    (core_version : Text) (launch : WorkerLaunch) (n : ℕ) (s : WorkerSupervisor)
    → Reachable core_version launch n s
    → (s.starts ≡ n) × IsWellFormed s
unfolding new_supervisor
Reachable-IsWellFormed core_version launch _ _ Reachable.initial = (refl, tt)
Reachable-IsWellFormed core_version launch _ _ (Reachable.after {n} {k} {s} {t} r step) =
    let (counted, w) = Reachable-IsWellFormed core_version launch n s r in
    let more = step_counts core_version launch k s t step in
    (omega arith, step-IsWellFormed core_version launch k s t step w)
