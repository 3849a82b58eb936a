-- ===== src/Server/Catching.antt =====
-- What becomes of a request to the catcher, up to the calls of the service.
use front_basicrum_go.Base.{
  ℕ, Bytes, [], ◌∷◌, false, Option, none, some, ◌≡◌, ◌∙◌, inl, inr, sym, refl, arith, ap, eqb,
  eqb_iff, codes, if◌then◌else◌,
}
use front_basicrum_go.Base.Outcome.{returns, Outcome-cases}
use front_basicrum_go.Values.{Values, get, has}
use front_basicrum_go.Types.{Event}
use front_basicrum_go.Geoip
use front_basicrum_go.Beacon.Convert.{RumEvent, create}
use front_basicrum_go.Beacon.Laws.{with_headers, create-add, create-panics, create_fields}
use front_basicrum_go.Service.Subscriptions.{Query, disabled, get_subscription}
use front_basicrum_go.Service.Process.{
  save, Service, dispatch, process_rum_event, process_rum, process_event,
}
use front_basicrum_go.Server.Http.{Request, fresh, write_header}
use front_basicrum_go.Server.Events.{
  created_at, new_event_from_request, create-new_event_from_request,
}
use front_basicrum_go.Server.Handlers.{
  save_async, backup_async, method_get, method_post, headers_no_cache, response_no_content, catcher,
}

post_not_get : (r : Request) → r.method ≡ method_post → eqb r.method method_get ≡ false
unfolding eqb codes
post_not_get r m = rw m

no_content_fresh :
    ((response_no_content fresh).status ≡ some 204) × ((response_no_content fresh).body ≡ [])
unfolding response_no_content headers_no_cache write_header
no_content_fresh = (refl, refl)

-- A POST is answered with 204 and no body in any case; if its form can be read, one and the same event
-- goes to the service and to the backup, and if not, nothing goes anywhere.
pub catcher_post :
    (now : Bytes) (events : Option Bytes) (r : Request)
    → r.method ≡ method_post
    → ((catcher now events r fresh).writer.status ≡ some 204)
      × ((catcher now events r fresh).writer.body ≡ [])
      × ((catcher now events r fresh).effects ≡ elim (new_event_from_request now r) [
        | none ↦ []
        | some e ↦ save_async e ∷ backup_async e ∷ []
      ])
unfolding catcher
catcher_post now events r m =
    ground (arith, post_not_get r m, (eqb_iff r.method method_post).1 m, no_content_fresh)

module _ (parse_url : Bytes → Option Bytes) (geo : Option Geoip.Service) where
  processed_now :
      (query : Query) (time : ℕ) (e : Event) (r : RumEvent) (s : Service)
      → create parse_url geo e ≡ returns r
      → process_event (create parse_url geo) query time (some e) s
        ≡ returns (process_rum query time e r s)
  unfolding process_event
  processed_now query time e r s c = ground arith

  processed_disabled :
      (query : Query) (time : ℕ) (e : Event) (r : RumEvent) (s : Service)
      → create parse_url geo e ≡ returns r
      → s.subscriptions ≡ disabled
      → process_event (create parse_url geo) query time (some e) s ≡ returns (process_rum_event r s)
  unfolding process_event process_rum get_subscription dispatch process_rum_event
  processed_disabled query time e r s c d =
      processed_now query time e r s c
      ∙ ap
          (λ subs.
            let (reply, subs') = get_subscription query time r.subscription_id r.hostname subs in
            returns (dispatch reply e r (record s { subscriptions = subs' })))
          d
      ∙ ap (λ subs. returns (process_rum_event r (record s { subscriptions = subs }))) (sym d)

  -- With subscriptions disabled the event of a request whose form can be read and whose URL is one
  -- is stored by one call, with the time and the host of the request, whether or not the backup has
  -- already marked the parameters that the two share.
  pub catcher-stored :
      (now mark : Bytes) (query : Query) (time : ℕ) (r : Request) (form : Values) (host : Bytes)
      (e : Event) (s : Service)
      → r.form ≡ some form
      → new_event_from_request now r ≡ some e
      → parse_url (get e.request_parameters (codes "u")) ≡ some host
      → s.subscriptions ≡ disabled
      → (rum : RumEvent) × (process_event (create parse_url geo) query time (some e) s
          ≡ returns (process_rum_event rum s))
        × (process_event (create parse_url geo) query time (some (with_headers e mark)) s
            ≡ returns (process_rum_event rum s))
        × ((process_rum_event rum s).calls ≡ save rum ∷ s.calls)
        × (rum.created_at ≡ (if has form created_at then get form created_at else now))
        × (rum.hostname ≡ host)
  catcher-stored now mark query time r form host e s f n u d =
      elim (Outcome-cases (create parse_url geo e)) [
        | inr bad ↦ cc (u, (create-panics parse_url geo e).0 bad)
        | inl (rum, c) ↦
            let (no_id, at, name) = create_fields parse_url geo e rum c in
            let same : rum.hostname ≡ host = cc (name, u) in
            (
              rum,
              processed_disabled query time e rum s c d,
              processed_disabled query time (with_headers e mark) rum s
                  (create-add parse_url geo e mark ∙ c) d,
              unfold process_rum_event in refl,
              create-new_event_from_request parse_url geo now r form e rum f n c,
              same,
            )
      ]
