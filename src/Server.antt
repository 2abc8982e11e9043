-- ===== src/Server.antt =====
-- services/api/cmd/server/main.go: what the API server does with a request, over the in-memory
-- store that it uses outside production. Which pattern of the mux a request matches is net/http's.
pub mod Config
pub mod Startup
pub mod Routes
pub mod Access
pub mod Reach
pub mod Effects
pub mod Errors
pub mod Devices
pub mod Integrity
pub mod Invitations
pub mod Quota
pub mod Soundness
use rd_testing_project.Base.{
  String, Bool, true, false, Option, none, some, List, [], ◌∷◌, ◌==◌, string_eq, find?,
  if◌then◌else◌,
}
use rd_testing_project.Models.{Time}
use rd_testing_project.Store.{MemoryStore}
use rd_testing_project.Http.{Env, Request, Response, Handler, respond_json}
use rd_testing_project.Http.Bodies.{plain}
use rd_testing_project.Auth.{Crypto}
use rd_testing_project.Handlers.Updates.{Signer, UpdateHandler}
use Routes.{Payload, Route, routes, guarded_handler}

pub record Incoming : Type 0 where
  pub method : String
  pub matched : Option String  -- the pattern that the mux picks
  pub request : Request
  pub payload : Payload
  pub env : Env
  pub now : Time  -- time.Now() where the token is read

-- A new request has no claims in its context.
abbrev pub arrived : Incoming → Request
arrived i = record i.request { claims = none }

abbrev pub find_in : Option String → List Route → Option Route
find_in none rts = none
find_in (some pattern) rts = find? (λ rt. rt.pattern == pattern) rts

module _ (c : Crypto) (secret : String) (signer : Signer) (keys : UpdateHandler) where
  unfoldable pub find_route : Incoming → Option Route
  unfolding routes
  find_route i = find_in i.matched (routes c secret signer keys i.env i.payload)

  -- The mux's own answer, where no pattern matches.
  abbrev pub dispatch : Incoming → Option Route → Handler
  dispatch i none = respond_json 404 (plain "404 page not found")
  dispatch i (some rt) = guarded_handler c secret signer keys i.now rt (arrived i)

  unfoldable pub serve_mux : Incoming → Handler
  unfolding find_route
  serve_mux i = dispatch i (find_route i)

  -- A preflight request is answered before it reaches the mux.
  unfoldable pub cors_middleware : (Incoming → Handler) → Incoming → Handler
  cors_middleware next i = if i.method == "OPTIONS" then respond_json 204 (plain "") else next i

  unfoldable pub serve : Incoming → Handler
  unfolding cors_middleware serve_mux
  serve = cors_middleware serve_mux

  -- The store after some requests.
  unfoldable pub serve_all : List Incoming → MemoryStore → MemoryStore
  unfolding serve
  serve_all [] m = m
  serve_all (i ∷ is) m = serve_all is (serve i m).1
