-- ===== src/Server/Sessions/Routes.antt =====
-- internal/broker: what the server's calls do to the subscription of one client under one filter.
use orb_mq.Base.{
  ℕ, Bytes, bytes_eq, bytes_eq_iff, bytes_Eq, Map, lookup, Bool-cases, ◌&&◌, &&_iff, if◌then◌else◌,
  List, [], ◌∷◌, Option, none, some, Distinct, ◌≡◌, inl, inr, refl, arith, subst, sym, ◌∙◌,
}
use orb_mq.Topic.Tree.{Subscription as Route}
use orb_mq.Topic.Tree.Subscribed.{
  subscribed, subscribed-subscribe, subscribed-unsubscribe, subscribed-unsubscribe_all,
}
use orb_mq.Broker.{Broker, subscribe, unsubscribe, unsubscribe_all}
use orb_mq.Broker.Routing.{clone_same}
use orb_mq.Auth.Local.{contains}
use orb_mq.Session.Subscriptions.{bytes_leb, insert_sorted, snapshot_subscriptions}
use orb_mq.Server.Sessions.{route, restore, drop_routes}

-- The subscription of a client under a filter, in the broker's tree.
abbrev pub routed : Bytes → Bytes → Broker → Option Route
routed id filter b = subscribed filter id b.topics

pub routed-subscribe :
    (b : Broker) (f g j : Bytes) (sub : Route)
    → routed j g (subscribe b f sub)
      ≡ (if bytes_eq f g && bytes_eq sub.client_id j then some sub else routed j g b)
unfolding subscribe
routed-subscribe b f g j sub =
    rw (subscribe, clone_same b.topics) (subscribed-subscribe f g j sub b.topics)

pub routed-unsubscribe :
    (b : Broker) (f g id j : Bytes)
    → routed j g (unsubscribe b f id)
      ≡ (if bytes_eq f g && bytes_eq id j then none else routed j g b)
unfolding unsubscribe
routed-unsubscribe b f g id j =
    rw (unsubscribe, clone_same b.topics) (subscribed-unsubscribe f g id j b.topics)

pub routed-unsubscribe_all :
    (b : Broker) (g id j : Bytes)
    → routed j g (unsubscribe_all b id) ≡ (if bytes_eq id j then none else routed j g b)
unfolding unsubscribe_all
routed-unsubscribe_all b g id j =
    rw (unsubscribe_all, clone_same b.topics) (subscribed-unsubscribe_all id g j b.topics)

pub routed-drop_routes :
    (ids : List Bytes) (b : Broker) (g j : Bytes)
    → routed j g (drop_routes ids b) ≡ (if contains j ids then none else routed j g b)
unfolding drop_routes contains
routed-drop_routes [] b g j = refl
routed-drop_routes (id ∷ ids) b g j =
    routed-drop_routes ids (unsubscribe_all b id) g j
    ∙ ground (arith, routed-unsubscribe_all b g id j)

routed-again :
    (b : Broker) (f : Bytes) (sub : Route) (g j : Bytes)
    → routed sub.client_id f b ≡ some sub
    → routed j g (subscribe b f sub) ≡ routed j g b
routed-again b f sub g j h = elim (Bool-cases (bytes_eq f g && bytes_eq sub.client_id j)) [
  | inr q ↦ routed-subscribe b f g j sub ∙ rw q refl
  | inl q ↦
      let (one, two) = (&&_iff (bytes_eq f g) (bytes_eq sub.client_id j)).0 q in
      routed-subscribe b f g j sub
      ∙ (rw q refl
          ∙ sym (
              subst (λ x. routed x g b ≡ some sub) ((bytes_eq_iff sub.client_id j).0 two)
                (subst (λ x. routed sub.client_id x b ≡ some sub) ((bytes_eq_iff f g).0 one) h)))
]

-- The tree has a route for each of the filters.
abbrev pub HasRoutes : Bytes → ℕ → Broker → Map Bytes ℕ → Type 0
HasRoutes id ref b [] = Unit
HasRoutes id ref b ((f, q) ∷ m) = (routed id f b ≡ some (route id ref q)) × HasRoutes id ref b m

HasRoutes-as :
    (id : Bytes) (ref : ℕ) (b b' : Broker) (m : Map Bytes ℕ)
    → ((g : Bytes) → routed id g b' ≡ routed id g b)
    → HasRoutes id ref b m
    → HasRoutes id ref b' m
HasRoutes-as id ref b b' [] e h = tt
HasRoutes-as id ref b b' ((f, q) ∷ m) e h = (e f ∙ h.0, HasRoutes-as id ref b b' m e h.1)

-- Routes that are in the tree are restored without effect.
pub routed-restore :
    (m : Map Bytes ℕ) (id : Bytes) (ref : ℕ) (b : Broker) (g j : Bytes)
    → HasRoutes id ref b m
    → routed j g (restore m id ref b) ≡ routed j g b
unfolding restore
routed-restore [] id ref b g j h = refl
routed-restore ((f, q) ∷ m) id ref b g j h =
    let again = λ (i : Bytes) (x : Bytes). routed-again b f (route id ref q) x i h.0 in
    routed-restore m id ref (subscribe b f (route id ref q)) g j
      (HasRoutes-as id ref b (subscribe b f (route id ref q)) m (again id) h.1)
    ∙ again j g

insert_sorted-HasRoutes :
    (id : Bytes) (ref : ℕ) (b : Broker) (f : Bytes) (q : ℕ) (m : Map Bytes ℕ)
    → routed id f b ≡ some (route id ref q)
    → HasRoutes id ref b m
    → HasRoutes id ref b (insert_sorted (f, q) m)
unfolding insert_sorted
insert_sorted-HasRoutes id ref b f q [] e h = (e, tt)
insert_sorted-HasRoutes id ref b f q ((g, r) ∷ m) e h = elim (Bool-cases (bytes_leb f g)) [
  | inl z ↦ rw z (e, h)
  | inr z ↦ rw z (h.0, insert_sorted-HasRoutes id ref b f q m e h.1)
]

-- A snapshot of a map holds what the map does.
pub snapshot_subscriptions-HasRoutes :
    (id : Bytes) (ref : ℕ) (b : Broker) (m : Map Bytes ℕ)
    → Distinct m
    → ((f : Bytes) (q : ℕ) → lookup f m ≡ some q → routed id f b ≡ some (route id ref q))
    → HasRoutes id ref b (snapshot_subscriptions m)
unfolding snapshot_subscriptions lookup
snapshot_subscriptions-HasRoutes id ref b [] d h = tt
snapshot_subscriptions-HasRoutes id ref b ((f, q) ∷ m) d h =
    insert_sorted-HasRoutes id ref b f q (snapshot_subscriptions m)
      (h f q (ground (arith, bytes_eq_iff f f)))
      (snapshot_subscriptions-HasRoutes id ref b m d.1 (λ g r e.
        h g r (elim (Bool-cases (bytes_eq f g)) [
          | inl z ↦ cc (subst (λ x. lookup x m ≡ none) ((bytes_eq_iff f g).0 z) d.0, e)
          | inr z ↦ rw z e
        ])))
