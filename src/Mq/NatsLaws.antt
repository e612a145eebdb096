-- ===== src/Mq/NatsLaws.antt =====
-- Which subscriptions the client keeps track of, and which it loses.
use text.Mathlib.TextEquality.{eq_iff}
use goupter.Prelude.{
  ℕ, ◌≡◌, ◌≢◌, refl, String, true, false, not, none, some, List, [], ◌∷◌, ◌++◌, arith, ◌==◌,
  string_key, nat_key, nat_eqb_iff, ◌||◌, Bool-cases, Option-cases, inl, inr,
}
use goupter.Prelude.Dict.{
  lookup, Distinct, lookup-insert, lookup-delete, insert-Distinct, delete-Distinct,
}
use goupter.Mq.Nats.{
  NatsClient, has_handle, track, subscribe, queue_key, queue_subscribe, unsubscribe, handles, close,
  ClientStep, subscribed, queue_subscribed, unsubscribed, closed, Reach, new_nats_client,
}

-- A tracked handle is open, on an open connection, no handle is tracked under two keys, and only opened
-- handles are ended.
pub record IsTracked (c : NatsClient) : Type 0 where
  pub open_ones :
      (key : String) (sub : ℕ)
      → lookup key c.subscriptions ≡ some sub
      → (has_handle sub c.opened ≡ true) × (has_handle sub c.ended ≡ false) × (c.connected ≡ true)
  pub single :
      (key other : String) (sub : ℕ)
      → lookup key c.subscriptions ≡ some sub
      → lookup other c.subscriptions ≡ some sub
      → key ≡ other
  pub ended_opened : (sub : ℕ) → has_handle sub c.opened ≡ false → has_handle sub c.ended ≡ false
  pub distinct : Distinct c.subscriptions

track-IsTracked :
    (key : String) (sub : ℕ) (c : NatsClient)
    → c.connected ≡ true
    → has_handle sub c.opened ≡ false
    → IsTracked c
    → IsTracked (track key sub c)
unfolding track has_handle
track-IsTracked key sub c on fresh i = record {
  open_ones = λ k s h.
      ground (arith, lookup-insert key k sub c.subscriptions, i.open_ones k s, i.ended_opened sub);
  single = λ k j s h h'. ground (
    arith,
    lookup-insert key k sub c.subscriptions,
    lookup-insert key j sub c.subscriptions,
    eq_iff key k,
    eq_iff key j,
    i.single k j s,
    i.open_ones k sub,
    i.open_ones j sub,
  );
  ended_opened = λ s h. ground (arith, i.ended_opened s);
  distinct = insert-Distinct key sub c.subscriptions i.distinct;
}

unsubscribe-IsTracked :
    (topic : String) (c : NatsClient) → IsTracked c → IsTracked (unsubscribe topic c)
unfolding unsubscribe has_handle
unsubscribe-IsTracked topic c i = elim (Option-cases (lookup topic c.subscriptions)) [
  | inl e ↦ rw (e, unsubscribe) i
  | inr (sub, e) ↦
      rw (e, unsubscribe)
        (record {
          open_ones = λ k s h. ground (
            arith,
            lookup-delete topic k c.subscriptions,
            i.open_ones k s,
            eq_iff topic k,
            i.single topic k sub,
            nat_eqb_iff sub s,
          );
          single = λ k j s h h'. ground (
            arith,
            lookup-delete topic k c.subscriptions,
            lookup-delete topic j c.subscriptions,
            i.single k j s,
          );
          ended_opened =
              λ s h. ground (arith, i.ended_opened s, i.open_ones topic sub, nat_eqb_iff sub s);
          distinct = delete-Distinct topic c.subscriptions i.distinct;
        })
]

has_handle-append :
    (s : ℕ) (xs ys : List ℕ) → has_handle s (xs ++ ys) ≡ (has_handle s xs || has_handle s ys)
unfolding has_handle
has_handle-append s [] ys = refl
has_handle-append s (x ∷ xs) ys = ground (arith, has_handle-append s xs ys)

-- A handle of the map is tracked under some key.
handles-lookup :
    (s : ℕ) (entries : List (String × ℕ))
    → Distinct entries
    → has_handle s (handles entries) ≡ true
    → (key : String) × (lookup key entries ≡ some s)
unfolding handles has_handle lookup
handles-lookup s [] d h = absurd (ground arith)
handles-lookup s ((k, t) ∷ rest) d h = elim (Bool-cases (t == s)) [
  | inl same ↦ (k, ground (arith, nat_eqb_iff t s, eq_iff k k))
  | inr other ↦
      let (key, found) = handles-lookup s rest d.1 (ground (arith, other, h)) in
      (key, ground (arith, eq_iff k key, d.0, found))
]

close-IsTracked : (c : NatsClient) → IsTracked c → IsTracked (close c)
unfolding close lookup
close-IsTracked c i = record {
  open_ones = λ key sub h. absurd (ground arith);
  single = λ key other sub h h'. absurd (ground arith);
  ended_opened = λ sub h. elim (Bool-cases (has_handle sub (handles c.subscriptions))) [
    | inl tracked ↦ absurd (
        let (key, found) = handles-lookup sub c.subscriptions i.distinct tracked in
        ground (arith, i.open_ones key sub found))
    | inr no_handle ↦ ground (
      arith,
      has_handle-append sub c.opened (handles c.subscriptions ++ c.ended),
      has_handle-append sub (handles c.subscriptions) c.ended,
      i.ended_opened sub,
    )
  ];
  distinct = tt;
}

ClientStep-IsTracked : (c c' : NatsClient) → ClientStep c c' → IsTracked c → IsTracked c'
unfolding subscribe queue_subscribe
ClientStep-IsTracked c c' (subscribed topic sub on fresh e) i =
    rw e (track-IsTracked topic sub c on fresh i)
ClientStep-IsTracked c c' (queue_subscribed topic queue sub on fresh e) i =
    rw e (track-IsTracked (queue_key topic queue) sub c on fresh i)
ClientStep-IsTracked c c' (unsubscribed topic e) i = rw e (unsubscribe-IsTracked topic c i)
ClientStep-IsTracked c c' (closed e) i = rw e (close-IsTracked c i)

new-IsTracked : IsTracked new_nats_client
unfolding new_nats_client has_handle lookup
new-IsTracked = record {
  open_ones = λ key sub h. absurd (ground arith);
  single = λ key other sub h h'. absurd (ground arith);
  ended_opened = λ sub h. refl;
  distinct = tt;
}

-- After any calls on a new client, a handle in its map was given by the library, has not been
-- unsubscribed and its connection is not closed, no handle stands under two keys, and no handle was
-- ended that was not given.
pub Reach-IsTracked : (c : NatsClient) → Reach new_nats_client c → IsTracked c
Reach-IsTracked _ Reach.here = new-IsTracked
Reach-IsTracked c' (Reach.next {c = c} r step) =
    ClientStep-IsTracked c c' step (Reach-IsTracked c r)

-- A handle that stands nowhere in the map and that only the end of the connection ends.
pub record IsLost (sub : ℕ) (c : NatsClient) : Type 0 where
  pub was_opened : has_handle sub c.opened ≡ true
  pub left : has_handle sub c.ended ≡ not c.connected
  pub untracked : (key : String) → lookup key c.subscriptions ≢ some sub

track-IsLost :
    (key : String) (sub lost : ℕ) (c : NatsClient)
    → has_handle sub c.opened ≡ false
    → IsLost lost c
    → IsLost lost (track key sub c)
unfolding track has_handle
track-IsLost key sub lost c fresh i = record {
  was_opened = ground (arith, i.was_opened);
  left = i.left;
  untracked = λ k h.
      ground (arith, lookup-insert key k sub c.subscriptions, i.untracked k, i.was_opened, fresh);
}

unsubscribe-IsLost :
    (topic : String) (lost : ℕ) (c : NatsClient) → IsLost lost c → IsLost lost (unsubscribe topic c)
unfolding unsubscribe has_handle
unsubscribe-IsLost topic lost c i = elim (Option-cases (lookup topic c.subscriptions)) [
  | inl e ↦ rw (e, unsubscribe) i
  | inr (sub, e) ↦
      rw (e, unsubscribe)
        (record {
          was_opened = i.was_opened;
          left = ground (arith, i.left, i.untracked topic, nat_eqb_iff sub lost);
          untracked = λ k h. ground (arith, lookup-delete topic k c.subscriptions, i.untracked k);
        })
]

close-IsLost : (lost : ℕ) (c : NatsClient) → IsLost lost c → IsLost lost (close c)
unfolding close lookup
close-IsLost lost c i = record {
  was_opened = i.was_opened;
  left =
      ground
        (arith, has_handle-append lost c.opened (handles c.subscriptions ++ c.ended), i.was_opened);
  untracked = λ k h. ground arith;
}

ClientStep-IsLost :
    (lost : ℕ) (c c' : NatsClient) → ClientStep c c' → IsLost lost c → IsLost lost c'
unfolding subscribe queue_subscribe
ClientStep-IsLost lost c c' (subscribed topic sub on fresh e) i =
    rw e (track-IsLost topic sub lost c fresh i)
ClientStep-IsLost lost c c' (queue_subscribed topic queue sub on fresh e) i =
    rw e (track-IsLost (queue_key topic queue) sub lost c fresh i)
ClientStep-IsLost lost c c' (unsubscribed topic e) i = rw e (unsubscribe-IsLost topic lost c i)
ClientStep-IsLost lost c c' (closed e) i = rw e (close-IsLost lost c i)

Reach-IsLost : (lost : ℕ) (start c : NatsClient) → IsLost lost start → Reach start c → IsLost lost c
Reach-IsLost lost start _ i Reach.here = i
Reach-IsLost lost start c' i (Reach.next {c = c} r step) =
    ClientStep-IsLost lost c c' step (Reach-IsLost lost start c i r)

overwritten :
    (c : NatsClient) (topic : String) (first second : ℕ)
    → IsTracked c
    → lookup topic c.subscriptions ≡ some first
    → has_handle second c.opened ≡ false
    → IsLost first (track topic second c)
unfolding track has_handle
overwritten c topic first second v h fresh = record {
  was_opened = ground (arith, v.open_ones topic first);
  left = ground (arith, v.open_ones topic first);
  untracked = λ k e. ground (
    arith,
    lookup-insert topic k second c.subscriptions,
    v.single topic k first,
    v.open_ones topic first,
    eq_iff topic k,
  );
}

-- `Unsubscribe` and `Close` end what the map has: after any calls, the handle of a topic is
-- unsubscribed and the topic forgotten by the one, and every handle of the map by the other.
pub unsubscribe-close_ends :
    (c : NatsClient) (topic : String) (sub : ℕ)
    → Reach new_nats_client c
    → lookup topic c.subscriptions ≡ some sub
    → (has_handle sub c.ended ≡ false)
      × (has_handle sub (unsubscribe topic c).ended ≡ true)
      × (lookup topic (unsubscribe topic c).subscriptions ≡ none)
      × (has_handle sub (close c).ended ≡ true)
unfolding unsubscribe close has_handle
unsubscribe-close_ends c topic sub r h = (
  ((Reach-IsTracked c r).open_ones topic sub h).1,
  ground (arith, h),
  ground (arith, h, lookup-delete topic topic c.subscriptions, eq_iff topic topic),
  ground (
    arith,
    has_handle-append sub c.opened (handles c.subscriptions ++ c.ended),
    (Reach-IsTracked c r).open_ones topic sub h,
  ),
)

-- Where a topic is subscribed a second time, the first handle leaves the map while it is open, and
-- whatever calls on the client follow, it does not come back: no `Unsubscribe` ends it, and it stays
-- open exactly as long as the client has not closed its connection.
pub subscribe_again-IsLost :
    (c c' : NatsClient) (topic : String) (first second : ℕ)
    → Reach new_nats_client c
    → lookup topic c.subscriptions ≡ some first
    → has_handle second c.opened ≡ false
    → Reach (subscribe topic (some second) c).0 c'
    → IsLost first c'
unfolding subscribe
subscribe_again-IsLost c c' topic first second r h fresh later =
    Reach-IsLost first (track topic second c) c'
      (overwritten c topic first second (Reach-IsTracked c r) h fresh) later
