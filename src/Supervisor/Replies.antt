-- ===== src/Supervisor/Replies.antt =====
-- What a request returns: only the answer to it, and no process is kept behind a broken exchange.
use kide.Base.{
  ℕ, ◌≡◌, refl, Text, text_eq, nat_eq, List, ◌∷◌, Option, none, some, Bool, true, false, not,
}
use kide.Base.{Eq, ◌==◌, arith, contains, if◌then◌else◌}
use kide.Protocol.{WorkerEnvelope, WorkerMessage, WorkerError, error, worker_protocol_version}
use kide.Protocol.{validate_protocol_version}
use kide.Supervisor.{start, timed_out, exited, request_id_mismatch, worker_reported, frame}
use kide.Supervisor.{Result, ok, err, RunningWorker, WorkerSupervisor, Surroundings, Reply}
use kide.Supervisor.{envelope, undecodable, broken, disconnected, timeout, WorkerLaunch}
use kide.Supervisor.{stop, accept_envelope, receive, exchange, exchange_started, start_if_needed}
use kide.Supervisor.{reap_idle, discard_exited, request_with_timeout, used, smaller, with_worker}

pub if_case :
    {A : Type 0} (P : A → Type 0) (b : Bool) (x y : A)
    → (b ≡ true → P x)
    → (b ≡ false → P y)
    → P (if b then x else y)
if_case P true x y f g = f refl
if_case P false x y f g = g refl

abbrev pub is_error : WorkerMessage → Bool
is_error (error e) = true
is_error _ = false

-- The running process has been sent the request id.
abbrev pub has_sent : Text → Option RunningWorker → Bool
has_sent id none = false
has_sent id (some worker) = contains worker.request_ids id

-- An answer has the id of the request, the version of the protocol, and no error in it, and its
-- process goes on. A process that timed out, exited or mixed up the ids is not kept.
abbrev pub Settled : Text → Result WorkerEnvelope × WorkerSupervisor → Type 0
Settled id (ok e, s) =
    (e.request_id ≡ id)
    × (e.protocol_version ≡ worker_protocol_version)
    × (is_error e.message ≡ false)
    × (has_sent id s.running ≡ true)
Settled id (err (timed_out limit), s) = s.running ≡ none
Settled id (err exited, s) = s.running ≡ none
Settled id (err (request_id_mismatch sent received), s) = s.running ≡ none
Settled id (err _, s) = Unit

pub message_case :
    {A : Type 0} (P : A → Type 0) (message : WorkerMessage) (f : WorkerError → A) (x : A)
    → ((e : WorkerError) → P (f e))
    → (is_error message ≡ false → P x)
    → P (elim message [ error e ↦ f e | _ ↦ x ])
message_case P (error e) f x p q = p e
message_case P _ f x p q = q refl

same_of : {A : Type 0} ⦃e : Eq A⦄ (a b : A) → not (a == b) ≡ false → a ≡ b
same_of ⦃e⦄ a b h = ground (arith, h)

accept_envelope-Settled :
    (id : Text) (at : ℕ) (e : WorkerEnvelope) (worker : RunningWorker) (s : WorkerSupervisor)
    → contains worker.request_ids id ≡ true
    → Settled id (accept_envelope id at e worker s)
unfolding accept_envelope
accept_envelope-Settled id at e worker s h =
    if_case (Settled id) (not (e.protocol_version == worker_protocol_version)) _ _ (λ bad. tt)
      (λ version.
        if_case (Settled id) (not (e.request_id == id)) _ _ (λ bad. refl)
          (λ same.
            message_case (Settled id) e.message (λ reported. (err (worker_reported reported), s))
              (
                ok e,
                with_worker s (record { request_ids = worker.request_ids; last_activity = at }),
              )
              (λ reported. tt)
              (λ fine. (
                same_of e.request_id id same,
                same_of e.protocol_version worker_protocol_version version,
                fine,
                h,
              ))))

receive-Settled :
    (world : Surroundings) (limit : ℕ) (id : Text) (worker : RunningWorker) (s : WorkerSupervisor)
    (reply : Reply)
    → world.reply ≡ reply
    → contains worker.request_ids id ≡ true
    → Settled id (receive world limit id worker s)
unfolding receive stop
receive-Settled world limit id worker s (envelope e) r h =
    rw (r, receive) (accept_envelope-Settled id world.answered_at e worker s h)
receive-Settled world limit id worker s undecodable r h = rw (r, receive) tt
receive-Settled world limit id worker s (broken e) r h = rw (r, receive) tt
receive-Settled world limit id worker s disconnected r h = rw (r, receive) refl
receive-Settled world limit id worker s timeout r h = rw (r, receive) refl

pub option_case :
    {A B : Type 0} (P : B → Type 0) (o : Option A) (f : A → B) (x : B)
    → ((a : A) → P (f a))
    → P x
    → P (elim o [ some a ↦ f a | none ↦ x ])
option_case P none f x p q = q
option_case P (some a) f x p q = p a

contains-cons : (id : Text) (ids : List Text) → contains (id ∷ ids) id ≡ true
contains-cons id ids = ground (arith)

exchange-Settled :
    (world : Surroundings) (limit : ℕ) (id : Text) (worker : RunningWorker) (s : WorkerSupervisor)
    → Settled id (exchange world limit id worker s)
unfolding exchange
exchange-Settled world limit id worker s =
    let sent : RunningWorker = used worker id world.written_at in
    if_case (Settled id) (contains worker.request_ids id) _ _ (λ bad. tt)
      (λ fresh.
        if_case (Settled id) (not world.encodes) _ _ (λ bad. tt)
          (λ encoded.
            option_case (Settled id) world.write_error
              (λ e. (err (frame e), with_worker s (used worker id worker.last_activity)))
              (receive world limit id sent (with_worker s sent)) (λ e. tt)
              (receive-Settled world limit id sent (with_worker s sent) world.reply refl
                (contains-cons id worker.request_ids))))

-- Starting a process fails with `start` alone.
abbrev StartsOrFails : Result (RunningWorker × WorkerSupervisor) → Type 0
StartsOrFails (ok started) = Unit
StartsOrFails (err start) = Unit
StartsOrFails (err _) = ⊥

start_if_needed-StartsOrFails :
    (world : Surroundings) (s : WorkerSupervisor) → StartsOrFails (start_if_needed world s)
unfolding start_if_needed
start_if_needed-StartsOrFails world s =
    option_case StartsOrFails s.running (λ worker. ok (worker, s)) _ (λ worker. tt)
      (if_case StartsOrFails world.spawns _ _ (λ good. tt) (λ bad. tt))

exchange_started-Settled :
    (world : Surroundings) (limit : ℕ) (id : Text) (s : WorkerSupervisor)
    (started : Result (RunningWorker × WorkerSupervisor))
    → StartsOrFails started
    → Settled id (exchange_started world limit id started s)
unfolding exchange_started
exchange_started-Settled world limit id s (ok (worker, started)) f =
    exchange-Settled world limit id worker started
exchange_started-Settled world limit id s (err start) f = tt
exchange_started-Settled world limit id s (err e) f = absurd f

-- Whatever the process does, a request returns only an envelope with its own id, in the version of
-- the protocol and without an error, and the process that sent it goes on with that id noted. No
-- process is kept that timed out, exited or answered under another id.
pub request_with_timeout-Settled :
    (launch : WorkerLaunch) (world : Surroundings) (request : WorkerEnvelope) (limit : ℕ)
    (s : WorkerSupervisor)
    → Settled request.request_id (request_with_timeout launch world request limit s)
unfolding request_with_timeout
request_with_timeout-Settled launch world request limit s =
    let reaped : WorkerSupervisor = (reap_idle launch world.now s).1 in
    let live : WorkerSupervisor = discard_exited world reaped in
    option_case (Settled request.request_id) (validate_protocol_version request) _ _ (λ e. tt)
      (exchange_started-Settled world (smaller limit launch.request_timeout) request.request_id live
        (start_if_needed world live) (start_if_needed-StartsOrFails world live))
