-- ===== src/CameraWorker/Requests.antt =====
-- The requests that reach the worker of app/src/camera_worker.cpp over its channel, and its camera
-- manager, which app/src/camera_manager.cpp starts them with.
use youyeetoo_rk3588_toolkit.Prelude.{
  ◌≡◌, refl, ap, ◌∙◌, true, List, [], ◌∷◌, Option, none, some, All, is_nonneg,
}
use youyeetoo_rk3588_toolkit.WorkerChannel.{
  WorkerChannel, Received, no_message, broken, message, readable, datagram, try_recv,
}
use youyeetoo_rk3588_toolkit.Camera.{CameraTaskRequest}
use youyeetoo_rk3588_toolkit.CameraController.{Platform}
use youyeetoo_rk3588_toolkit.CameraManager.{CameraManager}
use youyeetoo_rk3588_toolkit.CameraManager.Requests.{start_task, tick}
use youyeetoo_rk3588_toolkit.CameraWorker.Fields.{Reading, serialize_request, parse_request}
use youyeetoo_rk3588_toolkit.CameraWorker.Delivery.{IsRequest, parse_request-serialize_request}
use youyeetoo_rk3588_toolkit.CameraWorker.Loop.{
  Arrival, Round, CameraWorker, Reception, drained, channel_broken, aborted, take_request, receive,
  report, after_tick, after_messages, round,
}

module _ (platform : Platform) where
  open platform use {Device}

  -- A call of TryRecv that gives the message of a request.
  pub record Carries (a : Arrival Device) (request : CameraTaskRequest) : Type 0 where
    pub ready : a.poll ≡ readable
    pub sent_message : a.recv ≡ datagram (serialize_request request)
    pub valid : IsRequest request

  abbrev pub arrivals_of : List (Arrival Device × CameraTaskRequest) → List (Arrival Device)
  arrivals_of [] = []
  arrivals_of ((a, request) ∷ rest) = a ∷ arrivals_of rest

  -- StartTask of the manager for each of the requests in turn.
  abbrev pub start_each :
      List (Arrival Device × CameraTaskRequest) → CameraManager Device → CameraManager Device
  start_each [] cm = cm
  start_each ((a, request) ∷ rest) cm =
      start_each rest (start_task platform a.filter a.devices a.adapter request cm).0

  carried :
      (ch : WorkerChannel) (a : Arrival Device) (request : CameraTaskRequest)
      → is_nonneg ch.fd ≡ true
      → Carries a request
      → try_recv a.poll a.recv ch ≡ message (serialize_request request)
  unfolding try_recv
  carried ch a request h c = rw (h, c.ready, c.sent_message) refl

  receive-one :
      (ch : WorkerChannel) (a : Arrival Device) (request : CameraTaskRequest)
      (rest : List (Arrival Device)) (cm : CameraManager Device)
      → is_nonneg ch.fd ≡ true
      → Carries a request
      → receive platform ch (a ∷ rest) cm
        ≡ receive platform ch rest (start_task platform a.filter a.devices a.adapter request cm).0
  unfolding receive take_request
  receive-one ch a request rest cm h c =
      let taken : Reading CameraTaskRequest → Reception Device = λ reading.
        elim (take_request platform a reading cm) [
          | none ↦ aborted
          | some cm' ↦ receive platform ch rest cm'
        ] in
      ap
        (λ (m : Received). elim m [
          | no_message ↦ drained cm
          | broken ↦ channel_broken
          | message msg ↦ taken (parse_request msg)
        ])
        (carried ch a request h c)
      ∙ ap taken (parse_request-serialize_request request c.valid)

  receive-requests :
      (ch : WorkerChannel) (rs : List (Arrival Device × CameraTaskRequest))
      (cm : CameraManager Device)
      → is_nonneg ch.fd ≡ true
      → All (λ e. Carries e.0 e.1) rs
      → receive platform ch (arrivals_of rs) cm ≡ drained (start_each rs cm)
  unfolding receive
  receive-requests ch [] cm h cs = refl
  receive-requests ch ((a, request) ∷ rest) cm h (c, cs) =
      receive-one ch a request (arrivals_of rest) cm h c
      ∙ receive-requests ch rest (start_task platform a.filter a.devices a.adapter request cm).0 h
          cs

  -- What arrives makes no difference behind the messages.
  abbrev without_arrivals : Round Device → Round Device
  without_arrivals r = record r { arrivals = [] }

  after_tick-arrivals :
      (ch : WorkerChannel) (r : Round Device) (o : Option (CameraManager Device))
      (w : CameraWorker Device)
      → after_tick platform ch r w.last_snapshot o
        ≡ after_tick platform ch (without_arrivals r) w.last_snapshot o
  unfolding after_tick report
  after_tick-arrivals ch r none w = refl
  after_tick-arrivals ch r (some cm) w = refl

  -- A round in which messages of requests arrive is the round, without messages, of a worker whose
  -- camera manager has been given these requests by StartTask in their order: the channel adds,
  -- loses and changes nothing, if it is open, and the requests are such as the source can hold.
  pub round-requests :
      (ch : WorkerChannel) (r : Round Device) (w : CameraWorker Device)
      (rs : List (Arrival Device × CameraTaskRequest))
      → is_nonneg ch.fd ≡ true
      → r.arrivals ≡ arrivals_of rs
      → All (λ e. Carries e.0 e.1) rs
      → round platform ch r w
        ≡ round platform ch (without_arrivals r) (record w { manager = start_each rs w.manager })
  unfolding round after_messages receive
  round-requests ch r w rs h e cs =
      ap (λ xs. after_messages platform ch r w.last_snapshot (receive platform ch xs w.manager)) e
      ∙ ap (after_messages platform ch r w.last_snapshot) (receive-requests ch rs w.manager h cs)
      ∙ after_tick-arrivals ch r (tick platform (start_each rs w.manager)) w
