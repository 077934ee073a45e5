-- ===== src/Webhooks/Health.antt =====
-- What every operation on the webhooks keeps: an endpoint that failed too often is switched off.
use truthbounty_api.Prelude.{
  ◌<◌, String, ◌≡◌, refl, sym, subst, inl, inr, Option, none, some, Bool, true, false, List, [],
  ◌∷◌, Result, ok, err, arith, string_eq, Bool-cases, any_of,
}
use truthbounty_api.Prelude.Maps.{JsMap, get, values}
use truthbounty_api.Prelude.Rows.{AllRows, put-AllRows, delete-AllRows}
use truthbounty_api.Webhooks.Types.{
  Webhook, WebhookSubscription, Store, CreateWebhookDto, UpdateWebhookDto,
}
use truthbounty_api.Webhooks.Service.{
  given, repeats, some_invalid, is_https, is_active_copy, set_enabled, new_webhook, create_with,
  remove_row, update_row, save_found, save_subscriptions, without, updated, update_subscriptions,
  save_updated, create, loaded_of, bad_url,
}
use truthbounty_api.Webhooks.Processor.{count_failure}

-- Below the limit unless it is disabled, and a disabled one is not enabled.
pub record Fit (id : String) (w : Webhook) : Type 0 where
  pub own : w.id ≡ id
  pub below : w.disabled ≡ false → w.consecutive_failures < 10
  pub off : w.disabled ≡ true → w.enabled ≡ false

own-Fit : (id : String) (w : Webhook) → Fit id w → Fit w.id w
own-Fit id w h = subst (λ j. Fit j w) (sym h.own) h

pub set_enabled-Fit :
    (id : String) (o : Option Bool) (w : Webhook) → Fit id w → Fit id (set_enabled o w)
set_enabled-Fit id none w h = h
set_enabled-Fit id (some false) w h = record { own = h.own; below = h.below; off = λ d. refl }
set_enabled-Fit id (some true) w h = record { own = h.own; below = λ d. omega arith; off = λ d. cc }

pub count_failure-Fit : (id : String) (w : Webhook) → Fit id w → Fit id (count_failure w)
count_failure-Fit id w h = record {
  own = ground (arith, h.own);
  below = λ d. ground (arith, h.below);
  off = λ d. ground (arith, h.off);
}

module _ {V : Type 0} where
  abbrev pub IsHealthy : Store V → Type 0
  IsHealthy s = AllRows Fit s.webhooks

  updated-Fit :
      (id : String) (dto : UpdateWebhookDto V) (w : Webhook) → Fit id w → Fit id (updated dto w)
  updated-Fit id dto w h =
      let w' = record w {
        url = given dto.url w.url;
        description = given dto.description w.description;
      } in
      let h' : Fit id w' = record { own = h.own; below = h.below; off = h.off } in
      let k = set_enabled-Fit id dto.enabled w' h' in
      record { own = k.own; below = k.below; off = k.off }

  save_subscriptions-webhooks :
      (id : String) (events : List String) (filters : Option (JsMap String V)) (s : Store V)
      → ((save_subscriptions id events filters s).0).webhooks ≡ s.webhooks
  save_subscriptions-webhooks id events filters s = elim (Bool-cases (repeats events)) [
    | inl twice ↦ rw twice refl
    | inr once ↦ rw once refl
  ]

  -- What leaves the webhooks as they are.
  pub same-IsHealthy : (s t : Store V) → t.webhooks ≡ s.webhooks → IsHealthy s → IsHealthy t
  same-IsHealthy s t e h = rw e h

  create_with-IsHealthy :
      (events : List String) (w : Webhook) (dto : CreateWebhookDto V) (s : Store V)
      → Fit w.id w
      → IsHealthy s
      → IsHealthy (create_with events w dto s).0
  create_with-IsHealthy [] w dto s fit h = h
  create_with-IsHealthy (e ∷ es) w dto s fit h = elim (Bool-cases (some_invalid (e ∷ es))) [
    | inl bad ↦ rw bad h
    | inr good ↦ elim (Bool-cases (repeats dto.events)) [
      | inl twice ↦ rw (good, twice) (put-AllRows Fit w.id w s.webhooks fit h)
      | inr once ↦ rw (good, once) (put-AllRows Fit w.id w s.webhooks fit h)
    ]
  ]

  pub create-IsHealthy :
      (id secret : String) (dto : CreateWebhookDto V) (s : Store V)
      → IsHealthy s
      → IsHealthy (create id secret dto s).0
  unfolding create
  create-IsHealthy id secret dto s h =
      let w = new_webhook id secret dto in
      let fit : Fit id w = record { own = refl; below = λ d. omega arith; off = λ d. cc } in
      elim (Bool-cases (is_https dto.url)) [
        | inr plain ↦ rw plain h
        | inl https ↦
            elim (Bool-cases (any_of (is_active_copy dto.url dto.owner_id) (values s.webhooks))) [
              | inl copy ↦ rw (https, copy) h
              | inr new ↦ rw (https, new) (create_with-IsHealthy dto.events w dto s fit h)
            ]
      ]

  pub remove_row-IsHealthy :
      (id : String) (o : Option Webhook) (s : Store V)
      → IsHealthy s
      → IsHealthy (remove_row id o s).0
  remove_row-IsHealthy id none s h = h
  remove_row-IsHealthy id (some w) s h = delete-AllRows Fit id s.webhooks h

  update_subscriptions-webhooks :
      (id : String) (events : Option (List String)) (filters : Option (JsMap String V))
      (s : Store V)
      → ((update_subscriptions id events filters s).0).webhooks ≡ s.webhooks
  update_subscriptions-webhooks id (some events) filters s =
      elim (Bool-cases (some_invalid events)) [
        | inl bad ↦ rw bad refl
        | inr good ↦ rw good (save_subscriptions-webhooks id events filters (without id s))
      ]
  update_subscriptions-webhooks id none (some filters) s = refl
  update_subscriptions-webhooks id none none s = refl

  module _
      (cascade : List (WebhookSubscription V)
        → List (WebhookSubscription V)
        → List (WebhookSubscription V)) where
    save_updated-IsHealthy :
        (loaded : List (WebhookSubscription V)) (w : Webhook) (r : Store V × Result (Unit {0}))
        → Fit w.id w
        → IsHealthy r.0
        → IsHealthy (save_updated cascade loaded w r).0
    save_updated-IsHealthy loaded w (s, err e) fit h = h
    save_updated-IsHealthy loaded w (s, ok u) fit h = put-AllRows Fit w.id w s.webhooks fit h

    pub update_row-IsHealthy :
        (id : String) (dto : UpdateWebhookDto V) (o : Option Webhook) (s : Store V)
        → get id s.webhooks ≡ o
        → IsHealthy s
        → IsHealthy (update_row cascade id dto o s).0
    update_row-IsHealthy id dto none s row h = h
    update_row-IsHealthy id dto (some w) s row h = elim (Bool-cases (bad_url dto.url)) [
      | inl bad ↦ rw bad h
      | inr good ↦
          let fit = own-Fit id _ (updated-Fit id dto w (h.each id w row)) in
          let kept =
            same-IsHealthy s (update_subscriptions id dto.events dto.filters s).0
              (update_subscriptions-webhooks id dto.events dto.filters s) h in
          rw good (
            save_updated-IsHealthy (loaded_of cascade id s) (updated dto w)
              (update_subscriptions id dto.events dto.filters s) fit kept)
    ]

    pub save_found-IsHealthy {ℓ} :
        {A : Type ℓ} (loaded : List (WebhookSubscription V)) (f : Webhook → Webhook) (answer : A)
        (id : String) (o : Option Webhook) (s : Store V)
        → ((w : Webhook) → Fit id w → Fit id (f w))
        → get id s.webhooks ≡ o
        → IsHealthy s
        → IsHealthy (save_found cascade loaded f answer o s).0
    save_found-IsHealthy loaded f answer id none s mild row h = h
    save_found-IsHealthy loaded f answer id (some w) s mild row h =
        put-AllRows Fit (f w).id (f w) s.webhooks (own-Fit id (f w) (mild w (h.each id w row))) h
