-- ===== src/Http.antt =====
-- What the handlers share: services/api/internal/auth/auth.go (Claims), the respondJSON and
-- respondError of services/api/internal/handlers/auth_handler.go, and the parts of net/http, uuid,
-- crypto and encoding that a handler calls, which are fields of `Library` and `Env`.
pub mod Bodies
use Bodies.{Body, error}
use rd_testing_project.Base.{
  ℕ, String, Bool, true, false, Option, none, some, List, [], ◌∷◌, ℤ, pos,
}
use rd_testing_project.Models.{Uuid, Time, Dict, AuditLog}
use rd_testing_project.Store.{MemoryStore, Error, Result, ok, err}
use rd_testing_project.Store.Audit.{insert_audit_log}

-- What a decoder leaves in its target, and whether it returned an error.
pub record Decoded {ℓ} (A : Type ℓ) : Type ℓ where
  pub value : A
  pub failed : Bool

-- Pure functions of packages that are not part of this repository.
pub record Library : Type 0 where
  pub parse_uuid : String → Option Uuid  -- uuid.Parse
  pub uuid_text : Uuid → String  -- UUID.String
  pub atoi : String → Option ℤ  -- strconv.Atoi
  pub hex_encode : List ℕ → String  -- hex.EncodeToString
  pub hex_decode : String → Option (List ℕ)  -- hex.DecodeString
  pub sha256 : String → List ℕ  -- sha256.Sum256

-- What a request draws from outside, by the place of the call in the handler: the clock, new
-- UUIDs, random bytes (of a given number).
pub record Env : Type 0 where
  pub library : Library
  pub open library use *
  pub now : ℕ → Time  -- time.Now
  pub new_id : ℕ → Uuid  -- uuid.New
  pub random : ℕ → ℕ → Decoded (List ℕ)  -- rand.Read

-- auth.Claims, with the fields of jwt.RegisteredClaims
pub record Claims : Type 0 where
  pub user_id : Uuid
  pub organization_id : Uuid
  pub role : String
  pub permissions : List String
  pub expires_at : Time
  pub issued_at : Time
  pub not_before : Time
  pub issuer : String
  pub token_id : String

pub record Request : Type 0 where
  pub authorization : String  -- Header.Get("Authorization")
  pub claims : Option Claims  -- Context().Value(ClaimsContextKey)
  pub path_value : String → String
  pub query_value : String → String  -- URL.Query().Get
  pub remote_addr : String
  pub user_agent : String

pub record Response : Type 0 where
  pub status : ℕ
  pub body : Body

-- The rest of a handler: it runs on the state and ends with one response.
abbrev pub Handler : Type 0
Handler = MemoryStore → Response × MemoryStore

-- A part of a handler that hands the rest a value, or responds and returns.
abbrev pub Step {ℓ} : Type ℓ → Type ℓ
Step A = (A → Handler) → Handler

infixl 5 ◌>>=◌ ◌>>◌
abbrev pub ◌>>=◌ {ℓ} : {A : Type ℓ} → Step A → (A → Handler) → Handler
◌>>=◌ m f = m f

abbrev pub ◌>>◌ : Step (Unit {0}) → Handler → Handler
◌>>◌ m k = m (λ _. k)

abbrev pub respond_json : ℕ → Body → Handler
respond_json status body m = (record { status = status; body = body }, m)

abbrev pub respond_error : ℕ → String → Handler
respond_error status message = respond_json status (error message)

-- x, ok := …; if !ok { respondError; return }
abbrev pub require {ℓ} : {A : Type ℓ} → Option A → ℕ → String → Step A
require (some a) status message k = k a
require none status message k = respond_error status message

-- if !test { respondError; return }
abbrev pub check : Bool → ℕ → String → Step (Unit {0})
check true status message k = k tt
check false status message k = respond_error status message

-- x, err := h.store.…; if err != nil { respondError; return }
abbrev pub fetch {ℓ} : {A : Type ℓ} → (MemoryStore → Result A) → (Error → Handler) → Step A
fetch f failure k m = elim (f m) [ ok a ↦ k a m | err e ↦ failure e m ]

-- x, _ := h.store.…
abbrev pub peek {ℓ} : {A : Type ℓ} → (MemoryStore → Result A) → Step (Result A)
peek f k m = k (f m) m

-- if err := h.store.…; err != nil { respondError; return }
abbrev pub perform : (MemoryStore → Result MemoryStore) → ℕ → String → Step (Unit {0})
perform f status message k m = elim (f m) [
  | ok m' ↦ k tt m'
  | err e ↦ respond_error status message m
]

-- _ = h.store.…
abbrev pub attempt : (MemoryStore → Result MemoryStore) → Step (Unit {0})
attempt f k m = elim (f m) [ ok m' ↦ k tt m' | err e ↦ k tt m ]

-- The InsertAuditLog call of a handler, whose error is dropped.
unfoldable pub audit :
    Request
    → Time
    → Uuid
    → Option Uuid
    → String
    → String
    → String
    → String
    → Option Dict
    → Step (Unit {0})
unfolding insert_audit_log
audit r now org_id user_id action resource_type resource_id status metadata = attempt (
    insert_audit_log
      (record {
        id = pos 0;
        organization_id = org_id;
        actor_user_id = user_id;
        action = action;
        resource_type = resource_type;
        resource_id = resource_id;
        ip_address = some r.remote_addr;
        user_agent = some r.user_agent;
        status = status;
        metadata = metadata;
        created_at = 0;
      })
      now)

abbrev pub status_ok : ℕ
status_ok = 200

abbrev pub status_created : ℕ
status_created = 201

abbrev pub status_accepted : ℕ
status_accepted = 202

abbrev pub bad_request : ℕ
bad_request = 400

abbrev pub unauthorized : ℕ
unauthorized = 401

abbrev pub forbidden : ℕ
forbidden = 403

abbrev pub not_found : ℕ
not_found = 404

abbrev pub conflict : ℕ
conflict = 409

abbrev pub internal_error : ℕ
internal_error = 500

-- claims, ok := middleware.GetClaims(r.Context()); if !ok { respondError(401); return }
abbrev pub authenticated : Request → Step Claims
authenticated r = require r.claims unauthorized "Not authenticated"
