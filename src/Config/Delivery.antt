-- ===== src/Config/Delivery.antt =====
-- config/config.go: what a registered handler is told, and in which order.
use kube_haproxy.Prelude.{true, Option, some, List, [], ◌∷◌, ◌≡◌, refl}
use kube_haproxy.Config.{
  Object, object, tombstone, EventHandler, call_each, register, run, handle_add, handle_update,
  handle_delete,
}

module _ {T : Type 0} {S : Type 0} where
  call_each-register :
      (call : EventHandler T S → S → S) (h : EventHandler T S) (handlers : List (EventHandler T S))
      (s : S)
      → call_each call (register h handlers) s ≡ call h (call_each call handlers s)
  unfolding call_each register
  call_each-register call h [] s = refl
  call_each-register call h (g ∷ handlers) s = call_each-register call h handlers (call g s)

  -- A registered handler is told of every event of its kind, after the handlers that were there
  -- before it: of an added object, of an updated one with its old state, of a deleted one whether it
  -- comes bare or in a tombstone, and of the end of the initial sync.
  pub register-delivers :
      (cast : Object → Option T) (h : EventHandler T S) (handlers : List (EventHandler T S))
      (obj old_obj : Object) (t old : T) (s : S)
      → cast obj ≡ some t
      → cast old_obj ≡ some old
      → (handle_add cast (register h handlers) obj s ≡ h.on_add t (handle_add cast handlers obj s))
        × (handle_update cast (register h handlers) old_obj obj s
            ≡ h.on_update old t (handle_update cast handlers old_obj obj s))
        × (handle_delete cast (register h handlers) (object obj) s
            ≡ h.on_delete t (handle_delete cast handlers (object obj) s))
        × (handle_delete cast (register h handlers) (tombstone obj) s
            ≡ h.on_delete t (handle_delete cast handlers (tombstone obj) s))
        × (run true (register h handlers) s ≡ h.on_synced (run true handlers s))
  unfolding handle_add handle_update handle_delete run
  register-delivers cast h handlers obj old_obj t old s e e' = (
    rw (e, handle_add) (call_each-register (λ g. g.on_add t) h handlers s),
    rw (e', e, handle_update) (call_each-register (λ g. g.on_update old t) h handlers s),
    rw (e, handle_delete) (call_each-register (λ g. g.on_delete t) h handlers s),
    rw (e, handle_delete) (call_each-register (λ g. g.on_delete t) h handlers s),
    call_each-register (λ g. g.on_synced) h handlers s,
  )
