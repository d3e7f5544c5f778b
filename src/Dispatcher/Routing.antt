-- ===== src/Dispatcher/Routing.antt =====
-- What app/src/command_dispatcher.cpp answers, and which components it touches.
use mathlib.Core.Option.{some-injective}
use youyeetoo_rk3588_toolkit.Prelude.{
  ◌≡◌, ◌≢◌, refl, Option, none, some, arith, ap, ◌∙◌, Option-cases, inl, inr,
}
use youyeetoo_rk3588_toolkit.Prelude.Text.{Text, codes, text_eq_iff, is_empty}
use youyeetoo_rk3588_toolkit.Prelude.Dict.{lookup, lookup-insert}
use youyeetoo_rk3588_toolkit.Command.{
  CommandRequest, CommandCategory, unknown, system, boot, usb, camera, storage, narrowband,
  ota_receive, downlink, log,
}
use youyeetoo_rk3588_toolkit.Service.{handle_module_task}
use youyeetoo_rk3588_toolkit.TaskManager.{ICameraManager, TaskManager}
use youyeetoo_rk3588_toolkit.Dispatcher.{
  ServiceContext, Dispatched, dispatch, route, dispatch_service, dispatch_camera,
}

-- An answer is consistent: the call's own result is the `accepted` flag, and there is an error code
-- exactly where the command was not accepted.
abbrev pub IsConsistent : {C : Type 0} → Dispatched C → Type 0
IsConsistent r = (r.2 ≡ r.1.accepted) × (is_empty r.1.error_code ≡ r.1.accepted)

dispatch_service-IsConsistent :
    {C : Type 0} (request : CommandRequest) (name : Text) (ctx : ServiceContext C)
    → IsConsistent (dispatch_service request name ctx)
unfolding dispatch_service handle_module_task codes
dispatch_service-IsConsistent request name ctx = ground arith

module _ (cm : ICameraManager) where
  open cm use {State}

  dispatch_camera-IsConsistent :
      (request : CommandRequest) (tm : TaskManager State) (ctx : ServiceContext State)
      → IsConsistent (dispatch_camera cm request tm ctx)
  unfolding dispatch_camera codes
  dispatch_camera-IsConsistent request tm ctx = ground arith

  route-IsConsistent :
      (c : CommandCategory) (request : CommandRequest) (tm : TaskManager State)
      (ctx : ServiceContext State)
      → IsConsistent (route cm c request tm ctx)
  unfolding route codes
  route-IsConsistent system request tm ctx = (refl, refl)
  route-IsConsistent camera request tm ctx = dispatch_camera-IsConsistent request tm ctx
  route-IsConsistent unknown request tm ctx = (refl, refl)
  route-IsConsistent _ request tm ctx = dispatch_service-IsConsistent request _ ctx

  -- Every command gets a consistent answer: the dispatcher returns the `accepted` flag of its
  -- result, and the result has an error code exactly where it is not accepted.
  pub dispatch-IsConsistent :
      (request : CommandRequest) (ctx : ServiceContext State)
      → IsConsistent (dispatch cm request ctx)
  unfolding dispatch codes
  dispatch-IsConsistent request ctx = elim (Option-cases ctx.task_manager) [
    | inl e ↦ rw (e, dispatch) (refl, refl)
    | inr (tm, e) ↦ rw (e, dispatch) (route-IsConsistent request.category request tm ctx)
  ]

-- The service module that a category belongs to.
abbrev pub routed_service : CommandCategory → Option Text
routed_service boot = some (codes "boot_state_service")
routed_service usb = some (codes "usb_service")
routed_service storage = some (codes "storage_service")
routed_service narrowband = some (codes "narrowband_service")
routed_service ota_receive = some (codes "ota_receive_service")
routed_service downlink = some (codes "downlink_service")
routed_service log = some (codes "log_service")
routed_service _ = none

-- A service call changes that service alone.
dispatch_service-frame :
    {C : Type 0} (request : CommandRequest) (name j : Text) (ctx : ServiceContext C)
    → name ≢ j
    → (lookup j (dispatch_service request name ctx).0.services ≡ lookup j ctx.services)
      × ((dispatch_service request name ctx).0.task_manager ≡ ctx.task_manager)
unfolding dispatch_service
dispatch_service-frame request name j ctx ne = elim (Option-cases (lookup name ctx.services)) [
  | inl e ↦ rw (e, dispatch_service) (refl, refl)
  | inr (service, e) ↦
      rw (e, dispatch_service)
        (lookup-insert name j _ ctx.services ∙ ground (arith, text_eq_iff name j), refl)
]

module _ (cm : ICameraManager) where
  open cm use {State}

  route_to_service :
      (c : CommandCategory) (request : CommandRequest) (tm : TaskManager State)
      (ctx : ServiceContext State) (name : Text)
      → routed_service c ≡ some name
      → route cm c request tm ctx ≡ dispatch_service request name ctx
  unfolding route
  route_to_service system request tm ctx name r = cc
  route_to_service camera request tm ctx name r = cc
  route_to_service unknown request tm ctx name r = cc
  route_to_service _ request tm ctx name r =
      ap (λ n. dispatch_service request n ctx) (some-injective _ _ r)

  -- A command of a service module's category changes no other service module, and leaves the task
  -- manager alone.
  pub dispatch-frame :
      (request : CommandRequest) (ctx : ServiceContext State) (name j : Text)
      → routed_service request.category ≡ some name
      → name ≢ j
      → (lookup j (dispatch cm request ctx).0.services ≡ lookup j ctx.services)
        × ((dispatch cm request ctx).0.task_manager ≡ ctx.task_manager)
  unfolding dispatch
  dispatch-frame request ctx name j r ne = elim (Option-cases ctx.task_manager) [
    | inl e ↦ rw (e, dispatch) (refl, e)
    | inr (tm, e) ↦
        rw (e, dispatch, route_to_service request.category request tm ctx name r)
          (let (services, managers) = dispatch_service-frame request name j ctx ne in
            (services, managers ∙ e))
  ]
