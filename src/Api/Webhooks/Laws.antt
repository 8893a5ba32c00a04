-- ===== src/Api/Webhooks/Laws.antt =====
-- Which posts a delivery attempts.
use omniscan.Prelude.{◌≤◌, String, ◌<>◌, ◌==◌, ◌≡◌, refl, sym, ap, true, false, Option, none, some}
use omniscan.Prelude.{
  List, [], ◌∷◌, length, contains, All, Bool-cases, Option-cases, ◌⊎◌, ◌↔◌, inl, inr, arith, eq_iff,
  eq_refl,
}
use text.Mathlib.TextLemmas.{append-eq-nil_iff}
use omniscan.Prelude.Try.{ok}
use omniscan.Core.Models.{Webhook}
use omniscan.Core.World.{Post}
use omniscan.Api.Webhooks.{
  Courier, sign, verify, matches, wrong_project, post_for, attempt, deliver_to,
}

-- The hook is an active outbound one that asks for the event, and is for the whole organization or
-- for the project; `url` is its address.
pub record Subscribed (event : String) (project_id : String) (hook : Webhook) (url : String)
    : Type 0 where
  pub outbound : hook.direction ≡ "outbound"
  pub active : hook.active ≡ true
  pub address : hook.target_url ≡ some url
  pub nonempty : (url == "") ≡ false
  pub asked : contains hook.events event ≡ true
  pub whose : (hook.project_id ≡ none) ⊎ (hook.project_id ≡ some project_id)

whose_lem :
    (own : Option String) (p : String)
    → (wrong_project own (some p) ≡ false) ↔ ((own ≡ none) ⊎ (own ≡ some p))
unfolding wrong_project
whose_lem none p = (λ h. inl refl, λ h. refl)
whose_lem (some own) p =
    (λ h. inr (ap some ((eq_iff own p).0 (ground arith))), λ o. ground (arith, eq_iff own p))

matches-Subscribed :
    (event p url : String) (hook : Webhook)
    → matches event (some p) hook ≡ some url
    → Subscribed event p hook url
unfolding matches
matches-Subscribed event p url hook h = record {
  outbound = (eq_iff hook.direction "outbound").0 (ground arith);
  active = ground arith;
  address = ground arith;
  nonempty = ground arith;
  asked = ground arith;
  whose = (whose_lem hook.project_id p).0 (ground arith);
}

Subscribed-matches :
    (event p url : String) (hook : Webhook)
    → Subscribed event p hook url
    → matches event (some p) hook ≡ some url
unfolding matches
Subscribed-matches event p url hook s =
    rw
      (
        s.outbound,
        s.active,
        s.address,
        s.nonempty,
        s.asked,
        (whose_lem hook.project_id p).1 s.whose,
      )
      refl

signed : (h : String) → (("sha256=" <> h) == "") ≡ false
signed h = elim (Bool-cases (("sha256=" <> h) == "")) [
  | inl e ↦ absurd (cc (append-eq-nil_iff.0 ((eq_iff ("sha256=" <> h) "").0 e)).0)
  | inr e ↦ e
]

pub verify-sign :
    (courier : Courier) (secret body : String)
    → verify courier secret body (some (sign courier secret body)) ≡ ok true
unfolding verify sign
verify-sign courier secret body =
    rw (signed (courier.hmac_hex secret body), eq_refl (sign courier secret body)) refl

abbrev pub In : {A : Type 0} → A → List A → Type 0
In x [] = ⊥
In x (y ∷ ys) = (x ≡ y) ⊎ In x ys

-- The post goes to a subscribed hook of the list, with a signature that the hook's secret verifies.
pub record Justified (courier : Courier) (event p body : String) (hooks : List Webhook)
    (post : Post) : Type 0 where
  pub hook : Webhook
  pub listed : In hook hooks
  pub subscribed : Subscribed event p hook post.url
  pub event_named : post.event ≡ event
  pub verified : verify courier hook.signing_secret post.body (some post.signature) ≡ ok true

later :
    (courier : Courier) (event p body : String) (hooks : List Webhook) (h : Webhook)
    (posts : List Post)
    → All (Justified courier event p body hooks) posts
    → All (Justified courier event p body (h ∷ hooks)) posts
later courier event p body hooks h [] a = tt
later courier event p body hooks h (post ∷ posts) (j, a) = (
  record {
    hook = j.hook;
    listed = inr j.listed;
    subscribed = j.subscribed;
    event_named = j.event_named;
    verified = j.verified;
  },
  later courier event p body hooks h posts a,
)

-- Every post that a delivery attempts goes to a webhook of the list that is an active outbound one,
-- asks for the event and is for the project or for the whole organization, at its address and with a
-- signature that its secret verifies; and no more posts are counted as delivered than were attempted.
pub deliver_to-Justified :
    (courier : Courier) (event p body : String) (hooks : List Webhook)
    → let (posts, delivered) = deliver_to courier event (some p) body hooks in
      All (Justified courier event p body hooks) posts × (delivered ≤ length posts)
unfolding deliver_to attempt
deliver_to-Justified courier event p body [] = (tt, ground arith)
deliver_to-Justified courier event p body (hook ∷ hooks) =
    let (all_posts, counted) = deliver_to-Justified courier event p body hooks in
    let posts = (deliver_to courier event (some p) body hooks).0 in
    elim (Option-cases (matches event (some p) hook)) [
      | inl e ↦ rw e (later courier event p body hooks hook posts all_posts, counted)
      | inr (url, e) ↦ rw e (
        (
          record {
            hook = hook;
            listed = inl refl;
            subscribed = matches-Subscribed event p url hook e;
            event_named = refl;
            verified = verify-sign courier hook.signing_secret body;
          },
          later courier event p body hooks hook posts all_posts,
        ),
        ground (arith, counted),
      )
    ]

-- Every subscribed webhook of the list gets a post at its address.
pub deliver_to-each :
    (courier : Courier) (event p body : String) (hook : Webhook) (url : String)
    (hooks : List Webhook)
    → Subscribed event p hook url
    → In hook hooks
    → In (post_for courier event body hook url) (deliver_to courier event (some p) body hooks).0
unfolding deliver_to attempt
deliver_to-each courier event p body hook url [] s m = absurd m
deliver_to-each courier event p body hook url (h ∷ hooks) s (inl same) =
    rw (sym same, Subscribed-matches event p url hook s) (inl refl)
deliver_to-each courier event p body hook url (h ∷ hooks) s (inr m) =
    let rest = deliver_to-each courier event p body hook url hooks s m in
    elim (Option-cases (matches event (some p) h)) [
      | inl e ↦ rw e rest
      | inr (u, e) ↦ rw e (inr rest)
    ]
