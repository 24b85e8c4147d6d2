-- ===== src/Plugins/Memory.antt =====
-- Tables of artifacts and installations in memory, on which the laws of the database hold, and a
-- store of files in memory: what the witnesses run on.
pub mod Laws
use minikura.Common.{
  lookup, insert, ℕ, suc, ◌+◌, String, Bool, true, false, not, ◌&&◌, Option, none, some, List, [],
  ◌∷◌, ◌==◌, ◌≡◌, ◌∙◌, refl, ap, subst, ◌+++◌, is_some, contains, length, filter, lookup, insert,
  Settled, ok, thrown, if◌then◌else◌, arith, eq_iff, Bool-cases, Option-cases, inl, inr,
}
use minikura.Domain.Errors.{Thrown, Action}
use minikura.Plugins.Entities.{Provider, same_provider, PluginArtifact, ServerPlugin}
use minikura.Plugins.Store.{
  FileStore, StoredFile, FoundFile, ArtifactKey, NewPlugin, Where, PluginStore, IsPluginStore, keep,
  FileStore, StoredFile, FoundFile,
}

pub record Tables : Type 0 where
  pub servers : List String
  pub artifacts : List PluginArtifact
  pub enabled : String → String → Option Bool

abbrev find : (PluginArtifact → Bool) → List PluginArtifact → Option PluginArtifact
find p [] = none
find p (a ∷ bs) = if p a then some a else find p bs

abbrev pub find_id : String → List PluginArtifact → Option PluginArtifact
find_id i [] = none
find_id i (a ∷ bs) = if a.id == i then some a else find_id i bs

abbrev pub with_found {ℓ} : {A : Type ℓ} → Option A → List A → List A
with_found none later = later
with_found (some a) later = a ∷ later

abbrev pub found : List String → List PluginArtifact → List PluginArtifact
found [] bs = []
found (i ∷ is) bs = with_found (find_id i bs) (found is bs)

abbrev pub without_id : String → List PluginArtifact → List PluginArtifact
without_id j [] = []
without_id j (a ∷ bs) = if a.id == j then without_id j bs else a ∷ without_id j bs

abbrev pub plugin : String → String → Option Bool → Option ServerPlugin
plugin i j none = none
plugin i j (some on) =
    some (record { id = i +++ "/" +++ j; server_id = i; artifact_id = j; enabled = on })

abbrev pub installed : String → String → Tables → Option ServerPlugin
installed i j t =
    if contains i t.servers && is_some (find_id j t.artifacts)
    then plugin i j (t.enabled i j)
    else none

abbrev pub hits : Where → Option ServerPlugin → Option PluginArtifact → Bool
hits p (some x) (some r) = p x r
hits p _ _ = false

abbrev number : Where → String → List PluginArtifact → Tables → ℕ
number p i [] t = 0
number p i (a ∷ bs) t =
    let rest = number p i bs t in if hits p (installed i a.id t) (some a) then suc rest else rest

abbrev pub total : Where → List String → Tables → ℕ
total p [] t = 0
total p (i ∷ is) t = number p i t.artifacts t + total p is t

abbrev pub delete_plugins : Where → Action Tables ℕ
delete_plugins p t = (
  ok (total p t.servers t),
  record t {
    enabled =
        λ i j. if hits p (installed i j t) (find_id j t.artifacts) then none else t.enabled i j;
  },
)

abbrev refuse : {A : Type 0} → Action Tables A
refuse t = (thrown (Thrown.error "PrismaClientKnownRequestError" "The request is refused"), t)

abbrev set_enabled : String → String → Bool → Action Tables (Unit {0})
set_enabled i j on t =
    (ok tt, record t { enabled = λ k l. if i == k && j == l then some on else t.enabled k l })

abbrev set_or_add :
    Option ServerPlugin → String → String → Bool → NewPlugin → Action Tables (Unit {0})
set_or_add (some x) i j on new t = set_enabled i j on t
set_or_add none i j on new t =
    if contains new.server_id t.servers && is_some (find_id new.artifact_id t.artifacts)
    then set_enabled new.server_id new.artifact_id true t
    else refuse t

abbrev pub upsert_plugin : String → String → Bool → NewPlugin → Action Tables (Unit {0})
upsert_plugin i j on new t = set_or_add (installed i j t) i j on new t

abbrev has_key : ArtifactKey → PluginArtifact → Bool
has_key key a =
    same_provider a.provider key.provider
    && a.provider_version_id == key.provider_version_id
    && a.platform == key.platform
    && a.filename == key.filename

abbrev replace : String → PluginArtifact → List PluginArtifact → List PluginArtifact
replace i b [] = []
replace i b (a ∷ bs) = if a.id == i then b ∷ replace i b bs else a ∷ replace i b bs

abbrev update_or_add :
    ArtifactKey
    → (PluginArtifact → PluginArtifact)
    → (String → String → PluginArtifact)
    → Option PluginArtifact
    → Action Tables PluginArtifact
update_or_add key f g none t =
    let id = key.provider_version_id +++ "/" +++ key.filename in
    let new = g id ("token of " +++ id) in (ok new, record t { artifacts = new ∷ t.artifacts })
update_or_add key f g (some a) t =
    (ok (f a), record t { artifacts = replace a.id (f a) t.artifacts })

abbrev update_found :
    (PluginArtifact → PluginArtifact) → Option PluginArtifact → Action Tables (Unit {0})
update_found f none t = refuse t
update_found f (some a) t = (ok tt, record t { artifacts = replace a.id (f a) t.artifacts })

abbrev pub delete_artifact : String → Action Tables (Unit {0})
delete_artifact j t =
    if is_some (find_id j t.artifacts)
    then (ok tt, record t { artifacts = without_id j t.artifacts })
    else refuse t

abbrev paired : PluginArtifact → Option ServerPlugin → Option (ServerPlugin × PluginArtifact)
paired a none = none
paired a (some x) = some (x, a)

abbrev plugins_of : String → List PluginArtifact → Tables → List (ServerPlugin × PluginArtifact)
plugins_of i [] t = []
plugins_of i (a ∷ bs) t = with_found (paired a (installed i a.id t)) (plugins_of i bs t)

abbrev pub memory : PluginStore
memory = record {
  State = Tables;
  server_exists = λ i t. contains i t.servers;
  artifact = λ i t. find_id i t.artifacts;
  artifact_by_token = λ token t. find (λ a. a.download_token == token) t.artifacts;
  artifacts_in = λ ids t. found ids t.artifacts;
  artifacts = λ p t. filter p t.artifacts;
  installed = installed;
  plugins_of = λ i t. plugins_of i t.artifacts t;
  servers_of = λ j t. filter (λ i. is_some (installed i j t)) t.servers;
  delete_plugins = delete_plugins;
  upsert_plugin = upsert_plugin;
  upsert_artifact = λ key f g t. update_or_add key f g (find (has_key key) t.artifacts) t;
  update_artifact = λ i f t. update_found f (find_id i t.artifacts) t;
  delete_artifact = delete_artifact;
}

pub find_id-id :
    (i : String) (bs : List PluginArtifact) (r : PluginArtifact) → find_id i bs ≡ some r → r.id ≡ i
find_id-id i [] r h = cc h
find_id-id i (a ∷ bs) r h = elim (Bool-cases (a.id == i)) [
  | inl e ↦
      let same : some a ≡ some r = subst (λ b. (if b then some a else find_id i bs) ≡ some r) e h in
      cc (same, (eq_iff a.id i).0 e)
  | inr e ↦ find_id-id i bs r (subst (λ b. (if b then some a else find_id i bs) ≡ some r) e h)
]

pub found-length :
    (ids : List String) (bs : List PluginArtifact)
    → length (found ids bs) ≡ length (filter (λ i. is_some (find_id i bs)) ids)
found-length [] bs = refl
found-length (i ∷ ids) bs = elim (Option-cases (find_id i bs)) [
  | inl h ↦ rw h (found-length ids bs)
  | inr (a, h) ↦ rw h (ap suc (found-length ids bs))
]

pub contains-filter :
    (p : String → Bool) (i : String) (is : List String)
    → contains i (filter p is) ≡ (contains i is && p i)
contains-filter p i [] = refl
contains-filter p i (k ∷ is) = ground (arith, eq_iff k i, contains-filter p i is)

pub find-without :
    (j k : String) (bs : List PluginArtifact)
    → find_id k (without_id j bs) ≡ (if j == k then none else find_id k bs)
find-without j k [] = ground arith
find-without j k (a ∷ bs) =
    ground (arith, eq_iff a.id j, eq_iff a.id k, eq_iff j k, find-without j k bs)

-- The files by bucket and key.
abbrev Files : Type 0
Files = List (String × StoredFile)

abbrev without_file : String → Files → Files
without_file key [] = []
without_file key ((k, file) ∷ files) =
    if k == key then without_file key files else (k, file) ∷ without_file key files

abbrev file_at : Option StoredFile → Action Files FoundFile
file_at none files = (thrown (Thrown.error "NoSuchKey" "The key does not exist"), files)
file_at (some file) files = (
  ok (record {
    body = some file.body;
    content_type = some file.content_type;
    content_length = some (length file.body);
  }),
  files,
)

abbrev pub file_memory : FileStore
file_memory = record {
  State = Files;
  head_bucket = λ bucket files. (ok tt, files);
  create_bucket = λ bucket files. (ok tt, files);
  put_object = λ bucket file files. (ok tt, insert (bucket +++ "/" +++ file.key) file files);
  get_object = λ bucket key files. file_at (lookup (bucket +++ "/" +++ key) files) files;
  delete_object = λ bucket key files. (ok tt, without_file (bucket +++ "/" +++ key) files);
}
