-- ===== src/Bacnet/Destroy.antt =====
-- bacnet_server_destroy of src/bacnet_server.c: the blocks that are freed. No operation sets `state_texts`,
-- so that calloc leaves it NULL and an object has one block.
use bacnet_event_server.Base.{
  suc, ◌+◌, ◌≡◌, refl, ap, ◌∙◌, List, [], ◌∷◌, ◌++◌, length, length-append, arith, false,
}
use bacnet_event_server.Bacnet.Model.{Object, Subscription, Server}
use bacnet_event_server.Bacnet.Objects.{server_stop}
use bacnet_event_server.Bacnet.Invariant.{IsValid}

pub data Block : Type 0 where
  object_block : Object → Block
  subscription_block : Subscription → Block
  server_block : Block

-- The walks along the two lists.
unfoldable pub free_objects : List Object → List Block
free_objects [] = []
free_objects (o ∷ os) = object_block o ∷ free_objects os

unfoldable pub free_subscriptions : List Subscription → List Block
free_subscriptions [] = []
free_subscriptions (sub ∷ subs) = subscription_block sub ∷ free_subscriptions subs

-- bacnet_server_destroy: the server as it was stopped, and the blocks freed, in order.
unfoldable pub server_destroy : Server → Server × List Block
unfolding free_objects free_subscriptions
server_destroy s =
    let stopped = server_stop s in
    (
      stopped,
      free_objects stopped.objects
          ++ (free_subscriptions stopped.cov_subscriptions ++ (server_block ∷ [])),
    )

length-free_objects : (os : List Object) → length (free_objects os) ≡ length os
unfolding free_objects
length-free_objects [] = refl
length-free_objects (o ∷ os) = ap suc (length-free_objects os)

length-free_subscriptions :
    (subs : List Subscription) → length (free_subscriptions subs) ≡ length subs
unfolding free_subscriptions
length-free_subscriptions [] = refl
length-free_subscriptions (sub ∷ subs) = ap suc (length-free_subscriptions subs)

freed_count :
    (os : List Object) (subs : List Subscription)
    → length (free_objects os ++ (free_subscriptions subs ++ (server_block ∷ [])))
      ≡ length os + length subs + 1
freed_count os subs = omega (
  arith,
  length-append (free_objects os) (free_subscriptions subs ++ (server_block ∷ [])),
  length-append (free_subscriptions subs) (server_block ∷ []),
  length-free_objects os,
  length-free_subscriptions subs,
)

stop_lem :
    (s : Server)
    → ((server_stop s).running ≡ false)
      × ((server_stop s).objects ≡ s.objects)
      × ((server_stop s).cov_subscriptions ≡ s.cov_subscriptions)
unfolding server_stop
stop_lem s = (ground arith, ground arith, ground arith)

-- A well-formed server is stopped, and as many blocks are freed as it counts objects and subscriptions, and one
-- more, its own.
server_destroy-counts :
    (s : Server)
    → IsValid s
    → ((server_destroy s).0.running ≡ false)
      × (length (server_destroy s).1 ≡ s.object_count + s.cov_subscription_count + 1)
unfolding server_destroy
server_destroy-counts s v =
    let (stopped, same_objects, same_subscriptions) = stop_lem s in
    (
      stopped,
      freed_count (server_stop s).objects (server_stop s).cov_subscriptions
          ∙ omega (
            arith,
            ap length same_objects,
            ap length same_subscriptions,
            v.objects_counted,
            v.subscriptions_counted,
          ),
    )
