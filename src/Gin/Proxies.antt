-- ===== src/Gin/Proxies.antt =====
-- gin/gin.go, gin/context.go: the address of a client behind proxies. Addresses and networks are named by
-- numbers; what the packages net and strings do with them is an argument.
use gocore.Common.{
  ℕ, ◌≡◌, refl, List, [], ◌∷◌, ◌++◌, Bool, true, false, not, ◌||◌, ◌&&◌, Option, none, some,
  if◌then◌else◌, All, Bool-cases, inl, inr,
}
use gocore.Gin.Maps.{Str}

-- `chars` is `strings.Split(s, "")`, `trim` is `strings.TrimSpace`.
pub record Net : Type 0 where
  pub parse_ip : Str → Option ℕ
  pub contains : ℕ → ℕ → Bool
  pub show : ℕ → Str
  pub chars : Str → List Str
  pub trim : Str → Str

pub record Engine : Type 0 where
  pub trusted_platform : Str
  pub app_engine : Bool
  pub forwarded_by_client_ip : Bool
  pub remote_ip_headers : Option (List Str)
  pub trusted_cidrs : Option (List ℕ)

abbrev pub is_empty : Str → Bool
is_empty [] = true
is_empty (b ∷ s) = false

any_contains : Net → List ℕ → ℕ → Bool
any_contains net [] ip = false
any_contains net (cidr ∷ cidrs) ip = net.contains cidr ip || any_contains net cidrs ip

unfoldable pub is_trusted_proxy : Net → Engine → ℕ → Bool
unfolding any_contains
is_trusted_proxy net engine ip = elim engine.trusted_cidrs [
  | none ↦ false
  | some cidrs ↦ any_contains net cidrs ip
]

-- The loop of `validateHeader`, over the items from the last to the first.
unfoldable pub validate_items : Net → Engine → List Str → Option Str
validate_items net engine [] = none
validate_items net engine (item ∷ before) =
    let further = validate_items net engine before in
    elim (net.parse_ip (net.trim item)) [
      | none ↦ none
      | some ip ↦
          if elim before [ [] ↦ true | ◌∷◌ i is ↦ not (is_trusted_proxy net engine ip) ]
          then some (net.trim item)
          else further
    ]

abbrev pub backwards : List Str → List Str
backwards [] = []
backwards (s ∷ ss) = backwards ss ++ s ∷ []

unfoldable pub validate_header : Net → Engine → Str → Option Str
validate_header net engine header =
    if is_empty header then none else validate_items net engine (backwards (net.chars header))

unfoldable pub first_valid : Net → Engine → (Str → Str) → List Str → Option Str
first_valid net engine request_header [] = none
first_valid net engine request_header (name ∷ names) =
    let further = first_valid net engine request_header names in
    elim (validate_header net engine (request_header name)) [ none ↦ further | some ip ↦ some ip ]

abbrev or_else : Str → Option Str → Str
or_else d none = d
or_else d (some s) = s

abbrev names_of : Engine → List Str
names_of engine = elim engine.remote_ip_headers [ none ↦ [] | some ns ↦ ns ]

-- `ClientIP` after its two platforms, for the address `remote` of the connection.
unfoldable pub forwarded : Net → Engine → (Str → Str) → Str → Str
forwarded net engine request_header remote = elim (net.parse_ip remote) [
  | none ↦ []
  | some ip ↦
      if is_trusted_proxy net engine ip && engine.forwarded_by_client_ip
      then or_else (net.show ip) (first_valid net engine request_header (names_of engine))
      else net.show ip
]

-- `ClientIP`; `appengine` is the name of the header for that platform.
unfoldable pub client_ip : Net → Engine → Str → (Str → Str) → Str → Str
client_ip net engine appengine request_header remote =
    let platform = request_header engine.trusted_platform in
    let app = request_header appengine in
    if not (is_empty engine.trusted_platform) && not (is_empty platform)
    then platform
    else if engine.app_engine && not (is_empty app)
    then app
    else forwarded net engine request_header remote

-- No piece of a header is an address on its own.
abbrev pub NoAddress : Net → Str → Type 0
NoAddress net s = net.parse_ip (net.trim s) ≡ none

All-append : (P : Str → Type 0) (ss ts : List Str) → All P ss → All P ts → All P (ss ++ ts)
All-append P [] ts h k = k
All-append P (s ∷ ss) ts h k = (h.0, All-append P ss ts h.1 k)

All-backwards : (P : Str → Type 0) (ss : List Str) → All P ss → All P (backwards ss)
All-backwards P [] h = tt
All-backwards P (s ∷ ss) h = All-append P (backwards ss) (s ∷ []) (All-backwards P ss h.1) (h.0, tt)

no_items :
    (net : Net) (engine : Engine) (items : List Str)
    → All (NoAddress net) items
    → validate_items net engine items ≡ none
unfolding validate_items
no_items net engine [] h = refl
no_items net engine (item ∷ before) h = rw (validate_items, h.0) refl

no_header :
    (net : Net) (engine : Engine) (header : Str)
    → All (NoAddress net) (net.chars header)
    → validate_header net engine header ≡ none
unfolding validate_header
no_header net engine header h = elim (Bool-cases (is_empty header)) [
  | inl e ↦ rw e refl
  | inr e ↦ rw (e, no_items net engine (backwards (net.chars header)) (All-backwards _ _ h)) refl
]

no_name :
    (net : Net) (engine : Engine) (request_header : Str → Str) (names : List Str)
    → ((header : Str) → All (NoAddress net) (net.chars header))
    → first_valid net engine request_header names ≡ none
unfolding first_valid
no_name net engine request_header [] h = refl
no_name net engine request_header (name ∷ names) h =
    rw (first_valid, no_header net engine (request_header name) (h (request_header name)))
      (no_name net engine request_header names h)

forwarded-show :
    (net : Net) (engine : Engine) (request_header : Str → Str) (remote : Str) (ip : ℕ)
    → ((header : Str) → All (NoAddress net) (net.chars header))
    → net.parse_ip remote ≡ some ip
    → forwarded net engine request_header remote ≡ net.show ip
unfolding forwarded
forwarded-show net engine request_header remote ip h k =
    elim (Bool-cases (is_trusted_proxy net engine ip && engine.forwarded_by_client_ip)) [
      | inl all ↦ rw (forwarded, k, all, no_name net engine request_header (names_of engine) h) refl
      | inr few ↦ rw (forwarded, k, few) refl
    ]

-- Since the header is split between any two characters, and no single character is an address, the
-- headers of trusted proxies never count: without a platform, ClientIP is the address of the connection.
pub client_ip-show :
    (net : Net) (engine : Engine) (appengine : Str) (request_header : Str → Str) (remote : Str)
    (ip : ℕ)
    → engine.trusted_platform ≡ []
    → engine.app_engine ≡ false
    → ((header : Str) → All (NoAddress net) (net.chars header))
    → net.parse_ip remote ≡ some ip
    → client_ip net engine appengine request_header remote ≡ net.show ip
unfolding client_ip
client_ip-show net engine appengine request_header remote ip e f h k =
    simp (e, f) (forwarded-show net engine request_header remote ip h k)
