-- ===== src/Web/Http.antt =====
-- Requests, responses, and the steps of a handler: it writes its response and returns at once, or
-- goes on. Response headers other than cookies are left out.
use pf_identity.Common.{
  ℕ, suc, String, Bool, List, [], ◌∷◌, ◌++◌, Option, none, some, if◌then◌else◌, ◌≡◌, refl, ◌⊎◌, inl,
  inr,
}
use pf_identity.Domain.{Result, ok, err, Error, AuditEvent, OrgMembershipView}
use pf_identity.Platform.{Platform}
use pf_identity.Store.Audits.{append_audit}
use pf_identity.Web.Views.{Body}
use pf_identity.World.{World, M, Cookie}

pub record Request : Type 0 where
  pub method : String
  -- `r.URL.Path`
  pub url_path : String
  -- `r.URL.RequestURI()`
  pub request_uri : String
  -- `r.URL.Query().Get`, `r.FormValue` and `r.PathValue`: "" for a missing name
  pub query : String → String
  pub form : String → String
  pub path_value : String → String
  -- whether `r.ParseForm()` succeeds
  pub form_parses : Bool
  pub cookie : String → Option String
  pub basic_auth : Option (String × String)
  -- `r.Header.Get("Authorization")`
  pub authorization : String
  pub remote_addr : String

pub record TokenResponse : Type 0 where
  pub access_token : String
  pub token_type : String
  pub expires_in : ℕ
  pub id_token : String
  pub scope : String
  pub refresh_token : Option String

pub record UserInfo : Type 0 where
  pub sub : String
  -- the address and whether it is verified
  pub email : Option (String × Bool)
  pub name : Option String
  -- the primary organization and all of them
  pub orgs : Option (OrgMembershipView × List OrgMembershipView)

-- The fields of `pageData` that the handlers here fill; the titles, one for each template, and the
-- texts for the scopes are left out.
pub record Page : Type 0 where
  -- the message of a form that failed, where to go on to, and the user's name and address
  pub error : String
  pub continue_to : String
  pub name : String
  pub email : String
  pub csrf : String
  pub client_name : String
  pub scopes : List String
  pub request_id : String
  -- what the logout pages carry on: the parameters of the request, the frames, and where to go on
  pub id_token_hint : String
  pub post_logout_redirect_uri : String
  pub state : String
  pub client_id : String
  pub iframes : List String
  pub continue_url : String

abbrev pub empty_page : Page
empty_page = record {
  error = "";
  continue_to = "";
  name = "";
  email = "";
  csrf = "";
  client_name = "";
  scopes = [];
  request_id = "";
  id_token_hint = "";
  post_logout_redirect_uri = "";
  state = "";
  client_id = "";
  iframes = [];
  continue_url = "";
}

pub data Response : Type 0 where
  -- `clientError`: the status, the OAuth error and its description
  client_error : ℕ → String → String → Response
  -- `http.Error`
  http_error : ℕ → String → Response
  -- `http.Redirect`, with the target that it is called with: that it makes a relative target
  -- absolute against the path of the request is left out
  redirect : ℕ → String → Response
  -- `s.render`: the template
  page : ℕ → String → Page → Response
  tokens : TokenResponse → Response
  user_info : UserInfo → Response
  -- `writeJSON`, and a status with no body
  json : ℕ → Body → Response
  no_content : Response

pub data Flow (A : Type 0) : Type 0 where
  next : A → Flow A
  stop : Response → Flow A

abbrev pub H : Type 0 → Type 0
H A = World → World × Flow A

module _ {A : Type 0} where
  abbrev pub pure : A → H A
  pure a w = (w, next a)

  -- Write the response and return.
  abbrev pub answer : Response → H A
  answer r w = (w, stop r)

  -- Run a call; `answered` is what an error is answered with.
  abbrev pub or_answer : M A → Response → H A
  or_answer m r w = let (w', a) = m w in elim a [ ok x ↦ (w', next x) | err e ↦ (w', stop r) ]

  -- Run a call; an error is answered by its kind.
  abbrev pub or_refusal : M A → (Error → Response) → H A
  or_refusal m f w = let (w', a) = m w in elim a [ ok x ↦ (w', next x) | err e ↦ (w', stop (f e)) ]

  -- Run a call and go on with its result, whatever it is.
  abbrev pub attempt : M A → H (Result A)
  attempt m w = let (w', a) = m w in (w', next a)

-- Run a step of the server that cannot fail.
abbrev pub running : {A : Type 0} → (World → World × A) → H A
running m w = let (w', a) = m w in (w', next a)

-- Write the state.
abbrev pub modify : (World → World) → H (Unit {0})
modify f w = (f w, next tt)

abbrev pub get : {A : Type 0} → (World → A) → H A
get f w = (w, next (f w))

infixl 5 ◌>>=◌ ◌>>◌
abbrev pub ◌>>=◌ : {A B : Type 0} → H A → (A → H B) → H B
◌>>=◌ m f w = let (w', r) = m w in elim r [ next a ↦ f a w' | stop x ↦ (w', stop x) ]

abbrev pub ◌>>◌ : {A B : Type 0} → H A → H B → H B
m >> k = m >>= λ _. k

-- `if bad { …; return }`
abbrev pub refuse : Bool → Response → H (Unit {0})
refuse bad r w = (w, if bad then stop r else next tt)

-- A handler: what it answers with.
abbrev pub Handler : Type 0
Handler = World → World × Response

-- A handler's steps, all of whose paths answer.
abbrev pub answers : H Response → Handler
answers m w = let (w', r) = m w in elim r [ next x ↦ (w', x) | stop x ↦ (w', x) ]

-- `http.SetCookie`
abbrev pub set_cookie : Cookie → H (Unit {0})
set_cookie c w = (record w { sent = w.sent ++ c ∷ [] }, next tt)

module _ (p : Platform) where
  -- `id.New`, which does not fail.
  unfoldable pub fresh_id : H String
  fresh_id w = (record w { made = suc w.made }, next (p.ulid w.made))

  -- `requestIP` of audit.go.
  unfoldable pub request_ip : Request → String
  request_ip r = elim (p.split_host_port r.remote_addr) [ none ↦ r.remote_addr | some host ↦ host ]

  -- `s.audit` of audit.go, whose store never fails.
  unfoldable pub audit : Request → String → String → String → String → H (Unit {0})
  unfolding request_ip
  audit r kind subject client_id note w =
      let e : AuditEvent = record {
        id = p.ulid w.made;
        kind = kind;
        at = w.now;
        subject = subject;
        client_id = client_id;
        ip = request_ip r;
        note = note;
      } in
      (record w { store = (append_audit w.store e).0; made = suc w.made }, next tt)

-- The outcome of a step, by its two cases.
pub Flow-cases :
    {A : Type 0} (m : World × Flow A)
    → ((a : A) × (m ≡ (m.0, next a))) ⊎ ((x : Response) × (m ≡ (m.0, stop x)))
Flow-cases (w, next a) = inl (a, refl)
Flow-cases (w, stop x) = inr (x, refl)
