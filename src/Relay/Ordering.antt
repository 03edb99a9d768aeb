-- ===== src/Relay/Ordering.antt =====
-- What the relay's script keeps of a generation's stream.
use gist_agent.Base.{
  ℕ, ◌<◌, Option, none, some, not, ◌&&◌, ◌||◌, List, [], ◌∷◌, ◌++◌, ◌≡◌, refl, ap, ◌∙◌, subst,
  arith, ltb, leb, ◌==◌, first_where, any, Result, ok, err, Bool-cases, inl, inr, ok-injective,
}
use gist_agent.Contracts.{StreamEvent}
use gist_agent.Database.{Generation, Delivery, enqueue, event}
use gist_agent.Relay.{
  Published, Channel, publish_script, publish_event, RelayFault, Try, publish_tries,
}

-- Events with ever greater numbers, the first one greater than `n`.
abbrev pub Ascending : ℕ → List StreamEvent → Type 0
Ascending n [] = Unit {0}
Ascending n (e ∷ es) = (n < e.sequence) × Ascending e.sequence es

abbrev top_of : ℕ → List StreamEvent → ℕ
top_of n [] = n
top_of n (e ∷ es) = top_of e.sequence es

-- The stream is ascending, and its last number is the one that is kept.
pub record IsOrdered (c : Channel) : Type 0 where
  pub ascending : Ascending 0 c.stream
  pub tops : top_of 0 c.stream ≡ c.last

Ascending-concat :
    (n : ℕ) (es : List StreamEvent) (e : StreamEvent)
    → Ascending n es
    → top_of n es < e.sequence
    → Ascending n (es ++ e ∷ [])
Ascending-concat n [] e h l = (l, tt)
Ascending-concat n (x ∷ xs) e (h, hs) l = (h, Ascending-concat x.sequence xs e hs l)

top_of-concat :
    (n : ℕ) (es : List StreamEvent) (e : StreamEvent) → top_of n (es ++ e ∷ []) ≡ e.sequence
top_of-concat n [] e = refl
top_of-concat n (x ∷ xs) e = top_of-concat x.sequence xs e

script-IsOrdered :
    (e : StreamEvent) (event_id : ℕ) (c : Channel) (o : Option Published)
    → first_where (λ p. p.event_id == event_id) c.published ≡ o
    → IsOrdered c
    → IsOrdered (publish_script e event_id e.sequence c).1
unfolding publish_script
script-IsOrdered e event_id c (some p) f h = rw (f, publish_script) h
script-IsOrdered e event_id c none f h = elim (Bool-cases (leb e.sequence c.last)) [
  | inl b ↦ rw (f, publish_script) (rw b h)
  | inr b ↦
      rw (f, publish_script)
        (rw b (record {
          ascending = Ascending-concat 0 c.stream e h.ascending (ground (arith, h.tops));
          tops = top_of-concat 0 c.stream e;
        }))
]

publish_event-IsOrdered :
    (event_id generation_id : ℕ) (d : Delivery) (gs : List Generation) (c last : Channel)
    → publish_event event_id generation_id d gs c ≡ ok last
    → IsOrdered c
    → IsOrdered last
unfolding publish_event
publish_event-IsOrdered event_id generation_id (enqueue id) gs c last h k = cc
publish_event-IsOrdered event_id generation_id (event user_id sequence e) gs c last h k =
    elim (Bool-cases (
      not (e.generation_id == generation_id)
      || ltb sequence 1
      || not (e.event_id == event_id)
      || not (e.sequence == sequence))) [
        | inl b ↦ cc (rw b at h)
        | inr b ↦
            let same : e.sequence ≡ sequence = ground arith in
            elim (Bool-cases (any (λ g. g.id == generation_id && g.user_id == user_id) gs)) [
              | inl w ↦
                  subst IsOrdered
                    (ap (λ n. (publish_script e event_id n c).1) same
                      ∙ ok-injective (rw (b, w) at h))
                    (script-IsOrdered e event_id c _ refl k)
              | inr w ↦ subst IsOrdered (ok-injective (rw (b, w) at h)) k
            ]
      ]

try-IsOrdered :
    (generation_id : ℕ) (t : Try) (c : Channel) (r : Result RelayFault Channel)
    → publish_event t.event_id generation_id t.delivery t.generations c ≡ r
    → IsOrdered c
    → IsOrdered (elim r [ err f ↦ c | ok d ↦ d ])
try-IsOrdered generation_id t c (err f) h k = k
try-IsOrdered generation_id t c (ok d) h k =
    publish_event-IsOrdered t.event_id generation_id t.delivery t.generations c d h k

-- Whatever the relay tries to publish for a generation, in whatever order and however often, its
-- stream stays ascending: no event is in it twice, and none comes after a later one.
pub publish_tries-IsOrdered :
    (generation_id : ℕ) (ts : List Try) (c : Channel)
    → IsOrdered c
    → IsOrdered (publish_tries generation_id ts c)
unfolding publish_tries
publish_tries-IsOrdered generation_id [] c k = k
publish_tries-IsOrdered generation_id (t ∷ ts) c k =
    publish_tries-IsOrdered generation_id ts _ (try-IsOrdered generation_id t c _ refl k)
