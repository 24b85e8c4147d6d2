-- ===== src/Plugins/Artifacts/Registration.antt =====
-- What a registered artifact stands for.
use minikura.Common.{
  eq_iff, ℕ, String, true, not, Option, none, some, List, ◌≡◌, ◌≤◌, ◌⊎◌, inl, inr, ◌∙◌, refl, sym,
  ap, Settled, ok, thrown, settle, pure, throw_if, length, ltb, arith, >>=-inv, ◌>>=◌, ◌>>◌,
}
use minikura.Domain.Errors.{Thrown}
use minikura.Plugins.Entities.{
  Provider, modrinth, hangar, upload, remote, PluginArtifact, RegistryVersion,
}
use minikura.Plugins.Store.{PluginStore}
use minikura.Plugins.Registry.{invalid, differ}
use minikura.Plugins.Artifacts.{
  Url, Fetched, max_upload_bytes, is_allowed, validate_provider_url, hash_remote_file, hash_of,
  registered, new_artifact, key_of, register,
}

module _ (sha256 : List ℕ → String) (fetch : String → Settled Thrown Fetched) where
  -- The hash of a file at an address, of a size that is not too large.
  abbrev pub IsHashAt : String → ℕ → String → Type 0
  IsHashAt url size hash =
      (answer : Fetched) × (fetch url ≡ ok answer)
      × (answer.is_ok ≡ true)
      × (length answer.bytes ≡ size)
      × (size ≤ 104857600)
      × (hash ≡ sha256 answer.bytes)

  abbrev pub IsHashFor : RegistryVersion → String → Type 0
  IsHashFor input hash = (input.sha256 ≡ some hash) ⊎ IsHashAt input.download_url input.size hash

  hash_remote_file-inv :
      {S : Type 0} (url : String) (size : ℕ) (hash : String) (t u : S)
      → hash_remote_file sha256 fetch url size t ≡ (ok hash, u)
      → IsHashAt url size hash × (u ≡ t)
  unfolding hash_remote_file
  hash_remote_file-inv {S} url size hash t u h = go (fetch url) refl h
    where
      go :
          (r : Settled Thrown Fetched)
          → fetch url ≡ r
          → (throw_if (ltb max_upload_bytes size) (invalid "Plugin artifact is too large")
                >> (settle r >>= λ response.
                    throw_if (not response.is_ok) (invalid "Unable to download plugin artifact")
                    >> (throw_if
                          (differ (length response.bytes) size)
                          (invalid "Plugin artifact size changed")
                        >> pure (sha256 response.bytes))))
              t
            ≡ (ok hash, u)
          → IsHashAt url size hash × (u ≡ t)
      go (thrown e) same k = ground arith
      go (ok answer) same k =
          ((answer, same, ground arith, ground arith, ground arith, ground arith), ground arith)

  hash_of-inv :
      {S : Type 0} (input : RegistryVersion) (hash : String) (t u : S)
      → hash_of sha256 fetch input.sha256 input.download_url input.size t ≡ (ok hash, u)
      → IsHashFor input hash × (u ≡ t)
  hash_of-inv {S} input hash t u h = go input.sha256 refl h
    where
      go :
          (known : Option String)
          → input.sha256 ≡ known
          → hash_of sha256 fetch known input.download_url input.size t ≡ (ok hash, u)
          → IsHashFor input hash × (u ≡ t)
      go (some k) same e = (inl (same ∙ ground arith), ground arith)
      go none same e =
          let (there, kept) = hash_remote_file-inv input.download_url input.size hash t u e in
          (inr there, kept)

module _ {S : Type 0} (parse : String → Settled Thrown Url) where
  validate-inv :
      (provider : Provider) (value : String) (x : Unit {0}) (t u : S)
      → validate_provider_url parse provider value t ≡ (ok x, u)
      → ((url : Url) × (parse value ≡ ok url) × (is_allowed provider url ≡ true)) × (u ≡ t)
  unfolding validate_provider_url
  validate-inv provider value x t u h = go (parse value) refl h
    where
      go :
          (r : Settled Thrown Url)
          → parse value ≡ r
          → (settle r >>= λ url.
                throw_if
                  (not (is_allowed provider url))
                  (invalid "Plugin artifact URL is not from the selected provider"))
              t
            ≡ (ok x, u)
          → ((url : Url) × (parse value ≡ ok url) × (is_allowed provider url ≡ true)) × (u ≡ t)
      go (thrown e) same k = ground arith
      go (ok url) same k = ((url, same, ground arith), ground arith)

-- The providers' download hosts; uploads have none.
abbrev pub IsDownloadHost : Provider → String → Type 0
IsDownloadHost modrinth host = host ≡ "cdn.modrinth.com"
IsDownloadHost hangar host = host ≡ "hangarcdn.papermc.io"
IsDownloadHost upload host = ⊥

-- An address by https at the provider's download host.
abbrev pub IsFrom : Provider → Url → Type 0
IsFrom provider url = (url.protocol ≡ "https:") × IsDownloadHost provider url.hostname

is_allowed-IsFrom :
    (provider : Provider) (url : Url) → is_allowed provider url ≡ true → IsFrom provider url
unfolding is_allowed
is_allowed-IsFrom modrinth url h = (
  ground (arith, eq_iff url.protocol "https:"),
  ground (arith, eq_iff url.hostname "cdn.modrinth.com"),
)
is_allowed-IsFrom hangar url h = (
  ground (arith, eq_iff url.protocol "https:"),
  ground (arith, eq_iff url.hostname "hangarcdn.papermc.io"),
)
is_allowed-IsFrom upload url h = cc h

-- A row that has the file that was registered.
abbrev pub HasFile : RegistryVersion → String → PluginArtifact → Type 0
HasFile input hash row =
    (row.sha256 ≡ hash) × (row.size ≡ input.size) × (row.source_url ≡ some input.download_url)

-- The row `new` that a repeated registration makes of `old`.
abbrev pub IsRegistered : RegistryVersion → String → PluginArtifact → PluginArtifact → Type 0
IsRegistered input hash old new =
    HasFile input hash new
    × (new.id ≡ old.id)
    × (new.download_token ≡ old.download_token)
    × (new.provider_version_id ≡ old.provider_version_id)
    × (new.filename ≡ old.filename)
    × (new.storage_mode ≡ old.storage_mode)
    × (new.object_key ≡ old.object_key)

-- The row that a first registration makes.
abbrev pub IsNew : RegistryVersion → String → String → String → PluginArtifact → Type 0
IsNew input hash id token new =
    HasFile input hash new
    × (new.id ≡ id)
    × (new.download_token ≡ token)
    × (new.provider ≡ input.provider)
    × (new.provider_project_id ≡ input.project_id)
    × (new.provider_version_id ≡ input.version_id)
    × (new.version ≡ input.version)
    × (new.platform ≡ input.platform)
    × (new.filename ≡ input.filename)
    × (new.storage_mode ≡ remote)
    × (new.object_key ≡ none)

module _ (s : PluginStore) (parse : String → Settled Thrown Url) (sha256 : List ℕ → String)
    (fetch : String → Settled Thrown Fetched) where
  -- Keeps the artifact of a file with this hash: the row that has the version's key is changed, or a
  -- new one is made.
  abbrev pub Keeps :
      RegistryVersion → String → s.State → Settled Thrown PluginArtifact × s.State → Type 0
  Keeps input hash t r =
      (change : PluginArtifact → PluginArtifact) × (row : String → String → PluginArtifact)
      × ((old : PluginArtifact) → IsRegistered input hash old (change old))
      × ((id token : String) → IsNew input hash id token (row id token))
      × (s.upsert_artifact
            (record {
              provider = input.provider;
              provider_version_id = input.version_id;
              platform = input.platform;
              filename = input.filename;
            })
            change row t
          ≡ r)

  -- A registration that comes through has parsed the address as one of the provider's download
  -- host, by https; the hash that it keeps is the one that it was given or, where it was given
  -- none, the hash of what the address answers with, which then has the size that was given and is
  -- at most 100 MiB. Its only write is the one call that gives this hash, the size and the address
  -- to the row of the version or else makes a row with them, and the answer is that call's.
  pub register-inv :
      (input : RegistryVersion) (t u : s.State) (a : PluginArtifact)
      → register s parse sha256 fetch input t ≡ (ok a, u)
      → ((url : Url) × (parse input.download_url ≡ ok url) × IsFrom input.provider url)
        × ((hash : String) × IsHashFor sha256 fetch input hash × Keeps input hash t (ok a, u))
  unfolding register registered new_artifact
  register-inv input t u a h =
      let store = λ (hash : String).
        s.upsert_artifact (key_of input) (registered input hash) (new_artifact input hash) in
      let hashing = hash_of sha256 fetch input.sha256 input.download_url input.size in
      let (x, t1, checked, rest) =
        >>=-inv (validate_provider_url parse input.provider input.download_url)
          (λ _. hashing >>= store) h in
      let (url, same1) = validate-inv parse input.provider input.download_url x t t1 checked in
      let (hash, t2, hashed, stored) = >>=-inv hashing store rest in
      let (good, same2) = hash_of-inv sha256 fetch input hash t1 t2 hashed in
      let (address, parsed, allowed) = url in
      (
        (address, parsed, is_allowed-IsFrom input.provider address allowed),
        (
          hash,
          good,
          (
            registered input hash,
            new_artifact input hash,
            (λ old. ((refl, refl, refl), refl, refl, refl, refl, refl, refl)),
            (λ id token.
                ((refl, refl, refl), refl, refl, refl, refl, refl, refl, refl, refl, refl, refl)),
            ap (λ w. store hash w) (sym (same2 ∙ same1)) ∙ stored,
          ),
        ),
      )
