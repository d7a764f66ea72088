-- ===== src/Supervisor/Starts.antt =====
-- How many processes a request starts, and that `starts` counts them.
use kide.Base.{
  ℕ, suc, ◌+◌, ◌-◌, ◌≡◌, refl, sym, ap, ◌∙◌, inl, inr, Text, text_eq, nat_eq, Option, none, some,
  Bool, true, false, not, ◌&&◌, ◌==◌, leb, if◌then◌else◌, contains, arith, Bool-cases, Option-cases,
}
use kide.Protocol.{
  incompatible, WorkerEnvelope, WorkerError, worker_protocol_version, validate_protocol_version,
  ensure_compatible_protocol_version,
}
use kide.Supervisor.{
  Result, ok, err, RunningWorker, WorkerSupervisor, Surroundings, Reply, envelope, undecodable,
  broken, disconnected, timeout, WorkerLaunch, stop, accept_envelope, receive, exchange,
  exchange_started, start_if_needed, reap_idle, discard_exited, request_with_timeout, used, smaller,
  with_worker, fresh_worker, frame, worker_reported, accept_handshake,
}
use kide.Supervisor.Replies.{if_case, option_case, message_case}

-- The process of the supervisor still runs at the call and was not idle for too long.
abbrev pub is_live : WorkerLaunch → Surroundings → Option RunningWorker → Bool
is_live launch world none = false
is_live launch world (some worker) =
    not (leb launch.idle_timeout (world.now - worker.last_activity)) && not world.has_exited

-- A request in the version of the protocol starts a process if none is live and the spawn succeeds.
abbrev pub launched : WorkerLaunch → Surroundings → WorkerEnvelope → Option RunningWorker → ℕ
launched launch world request running =
    if request.protocol_version == worker_protocol_version
      && (not (is_live launch world running) && world.spawns)
    then 1
    else 0

-- An outcome leaves the count `n`.
record Counts {A : Type 0} (n : ℕ) (outcome : Result A × WorkerSupervisor) : Type 0 where
  pub count : outcome.1.starts ≡ n

counts : {A : Type 0} {r : Result A} {s : WorkerSupervisor} {n : ℕ} → s.starts ≡ n → Counts n (r, s)
counts e = record { count = e }

accept_envelope-Counts :
    (id : Text) (at : ℕ) (e : WorkerEnvelope) (worker : RunningWorker) (s : WorkerSupervisor)
    → Counts s.starts (accept_envelope id at e worker s)
unfolding accept_envelope stop
accept_envelope-Counts id at e worker s =
    if_case (Counts s.starts) (not (e.protocol_version == worker_protocol_version)) _ _
      (λ bad. counts refl)
      (λ version.
        if_case (Counts s.starts) (not (e.request_id == id)) _ _ (λ bad. counts refl)
          (λ same.
            message_case (Counts s.starts) e.message
              (λ reported. (err (worker_reported reported), s))
              (
                ok e,
                with_worker s (record { request_ids = worker.request_ids; last_activity = at }),
              )
              (λ reported. counts refl) (λ good. counts refl)))

receive-Counts :
    (world : Surroundings) (limit : ℕ) (id : Text) (worker : RunningWorker) (s : WorkerSupervisor)
    (reply : Reply)
    → world.reply ≡ reply
    → Counts s.starts (receive world limit id worker s)
unfolding receive stop
receive-Counts world limit id worker s (envelope e) r =
    rw (r, receive) (accept_envelope-Counts id world.answered_at e worker s)
receive-Counts world limit id worker s undecodable r = rw (r, receive) (counts refl)
receive-Counts world limit id worker s (broken e) r = rw (r, receive) (counts refl)
receive-Counts world limit id worker s disconnected r = rw (r, receive) (counts refl)
receive-Counts world limit id worker s timeout r = rw (r, receive) (counts refl)

exchange-Counts :
    (world : Surroundings) (limit : ℕ) (id : Text) (worker : RunningWorker) (s : WorkerSupervisor)
    → Counts s.starts (exchange world limit id worker s)
unfolding exchange
exchange-Counts world limit id worker s =
    let sent : RunningWorker = used worker id world.written_at in
    if_case (Counts s.starts) (contains worker.request_ids id) _ _ (λ bad. counts refl)
      (λ fresh.
        if_case (Counts s.starts) (not world.encodes) _ _ (λ bad. counts refl)
          (λ encoded.
            option_case (Counts s.starts) world.write_error
              (λ e. (err (frame e), with_worker s (used worker id worker.last_activity)))
              (receive world limit id sent (with_worker s sent)) (λ e. counts refl)
              (receive-Counts world limit id sent (with_worker s sent) world.reply refl)))

-- What is left of the process at the call.
pub live_running :
    (launch : WorkerLaunch) (world : Surroundings) (s : WorkerSupervisor)
    → (discard_exited world (reap_idle launch world.now s).1).running
      ≡ (if is_live launch world s.running then s.running else none)
unfolding discard_exited reap_idle stop
live_running launch world s = elim (Option-cases s.running) [
  | inl absent ↦ rw absent (ground arith)
  | inr (worker, there) ↦ rw there (ground arith)
]

pub live_starts :
    (launch : WorkerLaunch) (world : Surroundings) (s : WorkerSupervisor)
    → (discard_exited world (reap_idle launch world.now s).1).starts ≡ s.starts
unfolding discard_exited reap_idle stop
live_starts launch world s = ground arith

abbrev spawned : Surroundings → Option RunningWorker → ℕ
spawned world none = if world.spawns then 1 else 0
spawned world (some worker) = 0

started-Counts :
    (world : Surroundings) (limit : ℕ) (id : Text) (running : Option RunningWorker) (starts : ℕ)
    → Counts (starts + spawned world running) (
        exchange_started world limit id
          (start_if_needed world (record { running = running; starts = starts }))
          (record { running = running; starts = starts }))
unfolding exchange_started start_if_needed fresh_worker
started-Counts world limit id (some worker) starts =
    let kept =
      exchange-Counts world limit id worker (record { running = some worker; starts = starts }) in
    record { count = kept.count ∙ omega arith }
started-Counts world limit id none starts = elim (Bool-cases world.spawns) [
  | inl spawns ↦
      let fresh = fresh_worker world.now in
      let kept =
        exchange-Counts world limit id fresh
          (record { running = some fresh; starts = suc starts }) in
      rw (spawns, start_if_needed) (record { count = kept.count ∙ omega arith })
  | inr fails ↦ rw (fails, start_if_needed) (record { count = omega arith })
]

spawned_live :
    (launch : WorkerLaunch) (world : Surroundings) (running : Option RunningWorker)
    → spawned world (if is_live launch world running then running else none)
      ≡ (if not (is_live launch world running) && world.spawns then 1 else 0)
spawned_live launch world none = refl
spawned_live launch world (some worker) = elim (Bool-cases (is_live launch world (some worker))) [
  | inl live ↦ rw live refl
  | inr gone ↦ rw gone refl
]

pub validated_none :
    (request : WorkerEnvelope)
    → (request.protocol_version == worker_protocol_version) ≡ true
    → validate_protocol_version request ≡ none
unfolding validate_protocol_version ensure_compatible_protocol_version
validated_none request version = ground arith

pub validated_some :
    (request : WorkerEnvelope)
    → (request.protocol_version == worker_protocol_version) ≡ false
    → (e : WorkerError) × (validate_protocol_version request ≡ some e)
unfolding validate_protocol_version ensure_compatible_protocol_version
validated_some request other = (incompatible request.protocol_version, ground arith)

-- A request adds to the count the process that it starts.
pub request-Counts :
    (launch : WorkerLaunch) (world : Surroundings) (request : WorkerEnvelope) (limit : ℕ)
    (s : WorkerSupervisor)
    → (request_with_timeout launch world request limit s).1.starts
      ≡ s.starts + launched launch world request s.running
unfolding request_with_timeout
request-Counts launch world request limit s =
    let live : WorkerSupervisor = discard_exited world (reap_idle launch world.now s).1 in
    elim (Bool-cases (request.protocol_version == worker_protocol_version)) [
      | inl version ↦
          let kept =
            started-Counts world (smaller limit launch.request_timeout) request.request_id
              live.running live.starts in
          let spawn : spawned world live.running
              ≡ (if not (is_live launch world s.running) && world.spawns then 1 else 0) =
            ap (spawned world) (live_running launch world s)
            ∙ spawned_live launch world s.running in
          let same : s.starts + launched launch world request s.running
              ≡ live.starts + spawned world live.running =
            rw (version, spawn, live_starts launch world s) refl in
          rw (validated_none request version, request_with_timeout) (kept.count ∙ sym same)
      | inr other ↦
          let (e, refused) = validated_some request other in
          rw (refused, request_with_timeout, other) (omega arith)
    ]

pub accept_handshake-Counts :
    (outcome : Result WorkerEnvelope × WorkerSupervisor)
    → (accept_handshake outcome).1.starts ≡ outcome.1.starts
unfolding accept_handshake stop
accept_handshake-Counts (err e, s) = refl
accept_handshake-Counts (ok e, s) = ground arith
