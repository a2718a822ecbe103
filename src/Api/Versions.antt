-- ===== src/Api/Versions.antt =====
-- Optimistic concurrency as a client sees it: If-Match on the way in, ETag on the way out.
use issueflow.Prelude.{
  ℕ, Text, ◌≡◌, ◌≢◌, ◌⊎◌, inl, inr, refl, sym, ap, ◌∙◌, arith, true, false, Option, some, find_one,
}
use issueflow.Entities.{Ticket}
use issueflow.Store.{
  Db, Env, Result, Error, ok, err, precondition_required, ◌>>=◌, >>=-eq-ok, bound,
}
use issueflow.Auth.{CurrentUser, TokenIssuer}
use issueflow.Http.{if_match, version_number, header_required, print_etag}
use issueflow.Http.RoundTrip.{if_match-print_etag}
use issueflow.Tickets.Base.{is_ticket}
use issueflow.Tickets.Update
use issueflow.Tickets.Update.{UpdateTicketDto}
use issueflow.Tickets.Update.Laws.{update-find_one}
use issueflow.App.{app}
use issueflow.Dependencies.Blocking.{app-IsQuiet}
use issueflow.Api.Errors.{ok_status, precondition_required_status, catch, get_status}
use issueflow.Api.Responses.{Reply}
use issueflow.Api.Controllers.Tickets
use issueflow.Api.Endpoints.{Endpoint, update_ticket, wants_version, is_public}
use issueflow.Api.Pipeline.{
  Request, Response, Verifier, perform, serve, to_response, expected_version, current_user,
}
use issueflow.Api.Access.{Refused, serve-Admitted}

no_version :
    (env : Env) (issuer : TokenIssuer) (e : Endpoint) (user : CurrentUser) (header : Option Text)
    (s : Db)
    → wants_version e ≡ true
    → if_match header ≡ header_required
    → perform env issuer e (some user) header s
      ≡ (err (precondition_required "If-Match header is required"), s)
unfolding perform wants_version current_user expected_version ◌>>=◌
no_version env issuer e user header s h k = ground arith

wants_version-closed : (e : Endpoint) → wants_version e ≡ true → is_public e ≡ false
unfolding wants_version is_public
wants_version-closed e h = ground arith

failed-ne-ok : (e : Error) → (to_response (err e)).status ≢ ok_status
unfolding to_response catch get_status
failed-ne-ok e h = ground arith

module _ (env : Env) (issuer : TokenIssuer) (verify : Verifier) where
  -- A change of a ticket or a comment, or a deletion of one, without an If-Match header changes nothing
  -- and is answered by 428, or is refused by the guards.
  pub serve-precondition_required :
      (req : Request) (s : Db)
      → wants_version req.endpoint ≡ true
      → if_match req.if_match_header ≡ header_required
      → ((serve env issuer verify req s).1 ≡ s)
        × (((serve env issuer verify req s).0.status ≡ precondition_required_status)
            ⊎ Refused (serve env issuer verify req s).0 s (serve env issuer verify req s).1)
  unfolding to_response catch get_status
  serve-precondition_required req s wants missing =
      elim (serve-Admitted env issuer verify req s (wants_version-closed req.endpoint wants)) [
        | inr refused ↦ (refused.unchanged, inr refused)
        | inl (user, admitted, answered) ↦
            let stopped =
              no_version env issuer req.endpoint user req.if_match_header s wants missing in
            (ground (arith, answered, stopped), inl (ground (arith, answered, stopped)))
      ]

  -- The ticket whose change succeeded is the stored one, and its version is the ETag.
  updated :
      (id : ℕ) (dto : UpdateTicketDto) (user : CurrentUser) (header : Option Text) (s s' : Db)
      (r : Reply)
      → perform env issuer (update_ticket id dto) (some user) header s ≡ (ok r, s')
      → (t : Ticket) × (find_one (is_ticket id) s'.tickets ≡ some t)
        × (r.etag ≡ some (print_etag t.version))
  unfolding perform Tickets.update
  updated id dto user header s s' r h = elim (>>=-eq-ok (current_user (some user)) _ s h) [
    | bound actor s1 e1 h1 ↦ elim (>>=-eq-ok (expected_version header) _ s1 h1) [
      | bound version s2 e2 h2 ↦
          elim (>>=-eq-ok (Update.update env (app env) id dto (some actor.id) version) _ s2 h2) [
            | bound t s3 e3 h3 ↦
                let same : s3 ≡ s' = cc in
                (
                  t,
                  rw (← same) (
                      update-find_one env (app env) (app-IsQuiet env) id dto (some actor.id) version
                        s2 t s3 e3),
                  ground arith,
                )
          ]
    ]
  ]

  -- After a change of a ticket that was answered by 200, its ETag is that of the stored ticket, and sent
  -- back as If-Match it is read as the version of the stored ticket.
  pub etag-current :
      (token header : Option Text) (id : ℕ) (dto : UpdateTicketDto) (s : Db)
      → let req : Request = record {
        token = token;
        if_match_header = header;
        endpoint = update_ticket id dto;
      } in
        (serve env issuer verify req s).0.status ≡ ok_status
        → let r : Response × Db = serve env issuer verify req s in
          (t : Ticket) × (find_one (is_ticket id) r.1.tickets ≡ some t)
          × (r.0.etag ≡ some (print_etag t.version))
          × (if_match r.0.etag ≡ version_number t.version)
  unfolding is_public to_response
  etag-current token header id dto s fine = elim (serve-Admitted env issuer verify req s refl) [
    | inr refused ↦ absurd (ground (arith, refused.status))
    | inl (user, admitted, answered) ↦
        answer user (perform env issuer (update_ticket id dto) (some user) header s) refl answered
  ]
    where
      req : Request
      req = record { token = token; if_match_header = header; endpoint = update_ticket id dto }

      answer :
          (user : CurrentUser) (p : Result Reply × Db)
          → perform env issuer (update_ticket id dto) (some user) header s ≡ p
          → serve env issuer verify req s ≡ (to_response p.0, p.1)
          → (t : Ticket) × (find_one (is_ticket id) (serve env issuer verify req s).1.tickets
              ≡ some t)
            × ((serve env issuer verify req s).0.etag ≡ some (print_etag t.version))
            × (if_match (serve env issuer verify req s).0.etag ≡ version_number t.version)
      answer user (err e, s') h a =
          absurd (failed-ne-ok e (ap (λ (q : Response × Db). q.0.status) (sym a) ∙ fine))
      answer user (ok r, s') h a =
          let (t, found, tag) = updated id dto user header s s' r h in
          let tagged : (serve env issuer verify req s).0.etag ≡ some (print_etag t.version) =
            ap (λ (q : Response × Db). q.0.etag) a ∙ tag in
          (
            t,
            ap (λ (q : Response × Db). find_one (is_ticket id) q.1.tickets) a ∙ found,
            tagged,
            ap if_match tagged ∙ if_match-print_etag t.version,
          )
