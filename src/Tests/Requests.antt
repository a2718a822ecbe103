-- ===== src/Tests/Requests.antt =====
-- Requests on the database of the samples.
use issueflow.Prelude.{
  ◌≡◌, ◌⊎◌, refl, arith, Text, false, none, some, List, [], ◌∷◌, find_one, update_where, filter,
  any, text_eq,
}
use issueflow.Enums.{in_review}
use issueflow.Entities.{Ticket}
use issueflow.Store.{Db, ok, err, unauthorized, ◌>>=◌}
use issueflow.Http.{if_match, version_number, parse_etag, print_etag, can_activate}
use issueflow.Auth.{CurrentUser, LoginDto, has_token, login, logout, issue, validate}
use issueflow.Tickets.Base
use issueflow.Tickets.Base.{is_ticket}
use issueflow.Tickets.Update
use issueflow.Tickets.Update.{
  apply_update, apply_status_change, apply_assignee_change, save_with_version_guard,
  assert_editable,
}
use issueflow.App.{app}
use issueflow.Api.Controllers.Tickets
use issueflow.Users
use issueflow.Audit.{record_entry, insert_row, audit_row}
use issueflow.Api.Etag.{Field, number, object, single, version_key, is_key, intercept}
use issueflow.Api.Etag.Laws.{intercept-version}
use issueflow.Api.Endpoints.{update_ticket, get_ticket, is_public, required_roles, wants_version}
use issueflow.Api.Errors.{ok_status, precondition_required_status}
use issueflow.Api.Pipeline.{
  Request, serve, to_response, perform, authenticate, guarded, jwt_guard, roles_guard, current_user,
  expected_version,
}
use issueflow.Api.Access.{Admitted, Refused, serve-Admitted}
use issueflow.Api.Versions.{serve-precondition_required, etag-current}
use issueflow.Api.Session.{session_ends}
use issueflow.Tests.Samples.{env_at, ann, db, move_to}
use issueflow.Tests.Signing.{issuer, expiry, read_token, read_token-sign, sign}

-- What these runs compute.
served : Unit {0}
unfolding serve guarded jwt_guard authenticate validate has_token Users.find_active_by_id
    roles_guard can_activate perform current_user expected_version to_response required_roles
    is_public read_token sign find_one any filter update_where text_eq ◌>>=◌ if_match parse_etag
    print_etag Tickets.update Update.update apply_update apply_status_change apply_assignee_change
    save_with_version_guard Base.assert_version_matches assert_editable record_entry insert_row
    audit_row app login Users.find_by_username_with_password
served = tt

-- "id"
abbrev id_key : Text
id_key = b'i' ∷ b'd' ∷ []

abbrev body : List (Text × Field Text)
body = (id_key, number 3) ∷ (version_key, number 12) ∷ []

intercept-version_example :
    (rest : List (Text × Field Text)) × ((intercept (single (object body))).1
      ≡ single (object rest))
    × (if_match (intercept (single (object body))).0 ≡ version_number 12)
    × (any (is_key version_key) rest ≡ false)
    × (find_one (is_key id_key) rest ≡ find_one (is_key id_key) body)
unfolding find_one text_eq
intercept-version_example = intercept-version body version_key id_key 12 refl refl

-- The token of ann's session.
abbrev ann_token : Text
ann_token =
    sign (record {
      sub = 1;
      username = 97 ∷ [];
      role = some ann.role;
      jti = some (7 ∷ []);
      exp = none;
    })

abbrev patch : Request
patch = record {
  token = some ann_token;
  if_match_header = none;
  endpoint = update_ticket 1 (move_to in_review);
}

abbrev looks_up : Request
looks_up = record { token = some ann_token; if_match_header = none; endpoint = get_ticket 2 }

serve-Admitted_example :
    ((user : CurrentUser) × Admitted (env_at 100) read_token looks_up db user
      × (serve (env_at 100) issuer read_token looks_up db ≡ (
          let (r, s') = perform (env_at 100) issuer (get_ticket 2) (some user) none db in
          (to_response r, s'))))
    ⊎ Refused
        (serve (env_at 100) issuer read_token looks_up db).0
        db
        (serve (env_at 100) issuer read_token looks_up db).1
unfolding is_public
serve-Admitted_example = serve-Admitted (env_at 100) issuer read_token looks_up db refl

serve-precondition_required_example :
    ((serve (env_at 100) issuer read_token patch db).1 ≡ db)
    × (((serve (env_at 100) issuer read_token patch db).0.status ≡ precondition_required_status)
        ⊎ Refused
            (serve (env_at 100) issuer read_token patch db).0
            db
            (serve (env_at 100) issuer read_token patch db).1)
unfolding wants_version if_match
serve-precondition_required_example =
    serve-precondition_required (env_at 100) issuer read_token patch db refl refl

abbrev versioned_patch : Request
versioned_patch = record {
  token = some ann_token;
  if_match_header = some (print_etag 1);
  endpoint = update_ticket 1 (move_to in_review);
}

accepted : (serve (env_at 100) issuer read_token versioned_patch db).0.status ≡ ok_status
unfolding served
accepted = refl

etag-current_example :
    (t : Ticket) × (find_one
        (is_ticket 1)
        (serve (env_at 100) issuer read_token versioned_patch db).1.tickets
      ≡ some t)
    × ((serve (env_at 100) issuer read_token versioned_patch db).0.etag
        ≡ some (print_etag t.version))
    × (if_match (serve (env_at 100) issuer read_token versioned_patch db).0.etag
        ≡ version_number t.version)
etag-current_example =
    etag-current (env_at 100) issuer read_token (some ann_token) (some (print_etag 1)) 1
      (move_to in_review) db accepted

abbrev credentials : LoginDto
credentials = record { username = 97 ∷ []; password = [] }

abbrev s1 : Db
s1 = (login (env_at 100) issuer credentials db).1

logged_in : login (env_at 100) issuer credentials db ≡ (ok (issue (env_at 100) issuer ann), s1)
unfolding served
logged_in = refl

not_denied : has_token (env_at 110) (7 ∷ []) s1 ≡ false
unfolding served
not_denied = refl

session_ends_example :
    (user : CurrentUser) × (user.username ≡ 97 ∷ [])
    × (authenticate (env_at 110) read_token (some ann_token) s1 ≡ (ok (some user), s1))
    × (let s2 = (logout (env_at 120) user.jti user.id user.exp s1).1 in
        authenticate (env_at 130) read_token (some ann_token) s2
        ≡ (err (unauthorized "Token has been revoked"), s2))
unfolding sign issue
session_ends_example =
    session_ends (env_at 100) (env_at 110) (env_at 120) (env_at 130) issuer read_token expiry
      credentials db s1 (issue (env_at 100) issuer ann) read_token-sign refl not_denied
      (omega arith) logged_in
