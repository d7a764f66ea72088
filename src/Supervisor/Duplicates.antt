-- ===== src/Supervisor/Duplicates.antt =====
-- Which requests are refused because their id was sent before.
use kide.Base.{
  ℕ, suc, ◌≡◌, ◌≢◌, ◌↔◌, refl, ap, ◌∙◌, inl, inr, Text, text_eq, nat_eq, Option, none, some, true,
  false, not, ◌==◌, contains, arith, Bool-cases, Option-cases,
}
use kide.Protocol.{WorkerEnvelope, worker_protocol_version}
use kide.Supervisor.{
  Result, ok, err, duplicate_request_id, RunningWorker, WorkerSupervisor, Surroundings, Reply,
  envelope, undecodable, broken, disconnected, timeout, WorkerLaunch, accept_envelope, receive,
  exchange, exchange_started, start_if_needed, reap_idle, discard_exited, request_with_timeout,
  used, smaller, with_worker, fresh_worker, frame, worker_reported,
}
use kide.Supervisor.Replies.{if_case, option_case, message_case, has_sent}
use kide.Supervisor.Starts.{is_live, live_running, validated_none, validated_some}

-- An outcome that reports no duplicate.
record IsOther (outcome : Result WorkerEnvelope × WorkerSupervisor) : Type 0 where
  pub never : (id : Text) → outcome.0 ≢ err (duplicate_request_id id)

accept_envelope-IsOther :
    (id : Text) (at : ℕ) (e : WorkerEnvelope) (worker : RunningWorker) (s : WorkerSupervisor)
    → IsOther (accept_envelope id at e worker s)
unfolding accept_envelope
accept_envelope-IsOther id at e worker s =
    if_case IsOther (not (e.protocol_version == worker_protocol_version)) _ _
      (λ bad. record { never = λ i h. cc })
      (λ version.
        if_case IsOther (not (e.request_id == id)) _ _ (λ bad. record { never = λ i h. cc })
          (λ same.
            message_case IsOther e.message (λ reported. (err (worker_reported reported), s))
              (
                ok e,
                with_worker s (record { request_ids = worker.request_ids; last_activity = at }),
              )
              (λ reported. record { never = λ i h. cc }) (λ good. record { never = λ i h. cc })))

receive-IsOther :
    (world : Surroundings) (limit : ℕ) (id : Text) (worker : RunningWorker) (s : WorkerSupervisor)
    (reply : Reply)
    → world.reply ≡ reply
    → IsOther (receive world limit id worker s)
unfolding receive
receive-IsOther world limit id worker s (envelope e) r =
    rw (r, receive) (accept_envelope-IsOther id world.answered_at e worker s)
receive-IsOther world limit id worker s undecodable r =
    rw (r, receive) (record { never = λ i h. cc })
receive-IsOther world limit id worker s (broken e) r =
    rw (r, receive) (record { never = λ i h. cc })
receive-IsOther world limit id worker s disconnected r =
    rw (r, receive) (record { never = λ i h. cc })
receive-IsOther world limit id worker s timeout r = rw (r, receive) (record { never = λ i h. cc })

-- An exchange under an id that the process was not sent.
exchange-IsOther :
    (world : Surroundings) (limit : ℕ) (id : Text) (worker : RunningWorker) (s : WorkerSupervisor)
    → contains worker.request_ids id ≡ false
    → IsOther (exchange world limit id worker s)
unfolding exchange
exchange-IsOther world limit id worker s fresh =
    let sent : RunningWorker = used worker id world.written_at in
    rw (fresh, exchange)
      (if_case IsOther (not world.encodes) _ _ (λ bad. record { never = λ i h. cc })
        (λ encoded.
          option_case IsOther world.write_error
            (λ e. (err (frame e), with_worker s (used worker id worker.last_activity)))
            (receive world limit id sent (with_worker s sent)) (λ e. record { never = λ i h. cc })
            (receive-IsOther world limit id sent (with_worker s sent) world.reply refl)))

abbrev state : Option RunningWorker → ℕ → WorkerSupervisor
state running starts = record { running = running; starts = starts }

-- A request that finds a process which was not sent its id, or no process.
not_sent_before :
    (world : Surroundings) (limit : ℕ) (id : Text) (running : Option RunningWorker) (starts : ℕ)
    → has_sent id running ≡ false
    → IsOther (
        exchange_started world limit id
          (start_if_needed world (state running starts))
          (state running starts))
unfolding start_if_needed exchange_started fresh_worker
not_sent_before world limit id none starts new = elim (Bool-cases world.spawns) [
  | inl spawns ↦
      rw (spawns, exchange_started)
        (exchange-IsOther world limit id (fresh_worker world.now)
          (state (some (fresh_worker world.now)) (suc starts)) refl)
  | inr fails ↦ rw (fails, exchange_started) (record { never = λ i h. cc })
]
not_sent_before world limit id (some worker) starts new =
    exchange-IsOther world limit id worker (state (some worker) starts) new

sent_before :
    (world : Surroundings) (limit : ℕ) (id : Text) (running : Option RunningWorker) (starts : ℕ)
    → has_sent id running ≡ true
    → exchange_started world limit id
        (start_if_needed world (state running starts))
        (state running starts)
      ≡ (err (duplicate_request_id id), state running starts)
unfolding start_if_needed exchange_started exchange
sent_before world limit id none starts sent = absurd cc
sent_before world limit id (some worker) starts sent = rw (sent, exchange) refl

-- A live process goes on as it was.
live_same :
    (launch : WorkerLaunch) (world : Surroundings) (s : WorkerSupervisor)
    → is_live launch world s.running ≡ true
    → discard_exited world (reap_idle launch world.now s).1 ≡ s
unfolding discard_exited reap_idle
live_same launch world s live = elim (Option-cases s.running) [
  | inl absent ↦ absurd (ground arith)
  | inr (worker, there) ↦ ground arith
]

-- No process is left at the call where none is live.
gone_running :
    (launch : WorkerLaunch) (world : Surroundings) (s : WorkerSupervisor)
    → is_live launch world s.running ≡ false
    → (discard_exited world (reap_idle launch world.now s).1).running ≡ none
gone_running launch world s gone = live_running launch world s ∙ rw gone refl

-- The request is in the version of the protocol, and a live process was sent its id.
abbrev pub IsRepeated : WorkerLaunch → Surroundings → WorkerEnvelope → Option RunningWorker → Type 0
IsRepeated launch world request running =
    (request.protocol_version ≡ worker_protocol_version)
    × (is_live launch world running ≡ true)
    × (has_sent request.request_id running ≡ true)

module _ (launch : WorkerLaunch) (world : Surroundings) (request : WorkerEnvelope) (limit : ℕ)
    (s : WorkerSupervisor) where
  abbrev pub IsDuplicate : Type 0
  IsDuplicate =
      (request_with_timeout launch world request limit s).0
      ≡ err (duplicate_request_id request.request_id)

  then_refused :
      IsRepeated launch world request s.running
      → request_with_timeout launch world request limit s
        ≡ (err (duplicate_request_id request.request_id), s)
  unfolding request_with_timeout
  then_refused (version, live, sent) =
      let known = validated_none request (ground arith) in
      rw (known, request_with_timeout)
        (rw (live_same launch world s live) (
          sent_before world (smaller limit launch.request_timeout) request.request_id s.running
            s.starts sent))

  why_refused : IsDuplicate → IsRepeated launch world request s.running
  unfolding request_with_timeout
  why_refused refused = elim (Bool-cases (request.protocol_version == worker_protocol_version)) [
    | inr other ↦
        let (e, invalid) = validated_some request other in
        let clash = rw (invalid, request_with_timeout) at refused in absurd cc
    | inl version ↦
        let id = request.request_id in
        let limited = smaller limit launch.request_timeout in
        let live : WorkerSupervisor = discard_exited world (reap_idle launch world.now s).1 in
        let answered : (exchange_started world limited id (start_if_needed world live) live).0
            ≡ err (duplicate_request_id id) =
          rw (validated_none request version, request_with_timeout) at refused in
        elim (Bool-cases (is_live launch world s.running)) [
          | inl alive ↦ elim (Bool-cases (has_sent id s.running)) [
            | inl sent ↦ (ground arith, alive, sent)
            | inr new ↦ absurd (
                (not_sent_before world limited id s.running s.starts new).never id
                  (rw (live_same launch world s alive) at answered))
          ]
          | inr gone ↦ absurd (
              (not_sent_before world limited id live.running live.starts
                  (ap (has_sent id) (gone_running launch world s gone))).never
                id answered)
        ]
  ]

  -- A request is refused because its id was sent before if and only if it is in the version of the
  -- protocol and a process that still runs, and was not idle for too long, was sent the id; then the
  -- supervisor is as before.
  pub duplicate_refused_iff :
      (IsDuplicate ↔ IsRepeated launch world request s.running)
      × ((request_with_timeout launch world request limit s
            ≡ (err (duplicate_request_id request.request_id), s))
          ↔ IsRepeated launch world request s.running)
  duplicate_refused_iff = (
    (why_refused, λ repeated. ap (λ o. o.0) (then_refused repeated)),
    (λ refused. why_refused (ap (λ o. o.0) refused), then_refused),
  )
