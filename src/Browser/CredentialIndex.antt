-- ===== src/Browser/CredentialIndex.antt =====
-- `load_credential_id_index` of crates/off-chain/src/browser_rpc.rs, and what the start of the
-- listener does with its result. The file system is a parameter.
use stoffel_mpc_coordinator.Prelude.HashMap
use stoffel_mpc_coordinator.Prelude.HashMap.{HashMap, get-insert}
use stoffel_mpc_coordinator.Prelude.{
  ◌≡◌, ◌⊎◌, ap, ◌∙◌, inl, inr, not, List, [], ◌∷◌, Option, none, some, ◌==◌, nat_eq, list_eq,
  option_eq, codes, Result, ok, err, ◌>>=◌, if◌then◌else◌, arith, Option-cases, Bool-cases,
  Result-cases, Eq-cases,
}
use stoffel_mpc_coordinator.Shared.ExecutionId.{Bytes, ClientIdentity, identity_iff}

-- A `std::io::Error`: only one kind is told apart.
pub data IoError : Type 0 where
  not_found other_error : IoError

-- A file of the directory of credentials: its extension and stem, as far as they are texts, and
-- what reading it gives.
pub record CredentialFile : Type 0 where
  pub extension : Option Bytes
  pub file_stem : Option Bytes
  pub contents : Result IoError Bytes

-- The directory of credentials, and the key file of a client's name.
pub record Directories : Type 0 where
  pub credential_ids : Result IoError (List (Result IoError CredentialFile))
  pub read_cert : Bytes → Result IoError Bytes

abbrev pub CredentialIndex : Type 0
CredentialIndex = HashMap Bytes ClientIdentity

tolerated :
    (e : IoError) (skip : Result IoError CredentialIndex) (result : CredentialIndex)
    → elim e [ not_found ↦ skip | other_error ↦ err other_error ] ≡ ok result
    → skip ≡ ok result
tolerated not_found skip result h = h
tolerated other_error skip result h = cc

module _ (read_cert : Bytes → Result IoError Bytes) where
  unfoldable pub load_loop :
      List (Result IoError CredentialFile) → CredentialIndex → Result IoError CredentialIndex
  load_loop [] index = ok index
  load_loop (err e ∷ files) index = err e
  load_loop (ok file ∷ files) index =
      let skip = load_loop files index in
      if not (file.extension == some (codes "id")) then skip else elim file.file_stem [
        | none ↦ skip
        | some stem ↦ file.contents >>= λ credential_id. elim (read_cert stem) [
          | ok public_key ↦ load_loop files (HashMap.insert credential_id public_key index)
          | err e ↦ elim e [ not_found ↦ skip | other_error ↦ err other_error ]
        ]
      ]

  -- Where an entry comes from: a file of the directory has the credential, and the key file of its
  -- name the key.
  pub data IsOnFile (credential_id : Bytes) (key : ClientIdentity)
      : List (Result IoError CredentialFile) → Type 0 where
    here :
        {file : CredentialFile} {files : List (Result IoError CredentialFile)} {stem : Bytes}
        → file.file_stem ≡ some stem
        → file.contents ≡ ok credential_id
        → read_cert stem ≡ ok key
        → IsOnFile credential_id key (ok file ∷ files)
    there :
        {file : CredentialFile} {files : List (Result IoError CredentialFile)}
        → IsOnFile credential_id key files
        → IsOnFile credential_id key (ok file ∷ files)

  load_loop-IsOnFile :
      (files : List (Result IoError CredentialFile)) (index result : CredentialIndex)
      (credential_id : Bytes) (key : ClientIdentity)
      → load_loop files index ≡ ok result
      → HashMap.get credential_id result ≡ some key
      → (HashMap.get credential_id index ≡ some key) ⊎ IsOnFile credential_id key files
  unfolding load_loop
  load_loop-IsOnFile [] index result credential_id key h g =
      let same : index ≡ result = ground arith in inl (ap (HashMap.get credential_id) same ∙ g)
  load_loop-IsOnFile (err e ∷ files) index result credential_id key h g = cc
  load_loop-IsOnFile (ok file ∷ files) index result credential_id key h g =
      let later : (i : CredentialIndex)
          → load_loop files i ≡ ok result
          → (HashMap.get credential_id i ≡ some key) ⊎ IsOnFile credential_id key files =
        λ i e. load_loop-IsOnFile files i result credential_id key e g in
      let skipped : load_loop files index ≡ ok result
          → (HashMap.get credential_id index ≡ some key)
            ⊎ IsOnFile credential_id key (ok file ∷ files) =
        λ e. elim (later index e) [ inl old ↦ inl old | inr new ↦ inr (there new) ] in
      elim (Bool-cases (file.extension == some (codes "id"))) [
        | inr other ↦ skipped (ground arith)
        | inl id_file ↦ elim (Option-cases file.file_stem) [
          | inl nameless ↦ skipped (ground arith)
          | inr (stem, named) ↦ elim (Result-cases file.contents) [
            | inr (_, unread) ↦ absurd (ground arith)
            | inl (credential, content) ↦ elim (Result-cases (read_cert stem)) [
              | inr (e, lacks) ↦ skipped (tolerated e (load_loop files index) result (ground arith))
              | inl (public_key, cert) ↦
                  elim (later (HashMap.insert credential public_key index) (ground arith)) [
                    | inr new ↦ inr (there new)
                    | inl got ↦
                        let e = get-insert credential credential_id public_key index in
                        elim (Eq-cases credential credential_id) [
                          | inr (other, _) ↦ inl (ground arith)
                          | inl same ↦
                              let same_key : public_key ≡ key =
                                ground (arith, (identity_iff credential credential_id).1 same) in
                              inr (
                                here {stem = stem} named (content ∙ ap ok same)
                                  (cert ∙ ap ok same_key))
                        ]
                  ]
            ]
          ]
        ]
      ]

unfoldable pub load_credential_id_index : Directories → Result IoError CredentialIndex
unfolding load_loop
load_credential_id_index directories = elim directories.credential_ids [
  | ok files ↦ load_loop directories.read_cert files []
  | err e ↦ elim e [ not_found ↦ ok [] | other_error ↦ err other_error ]
]

-- At the start: without directories, or if they cannot be read, the index is empty.
unfoldable pub initial_index : Option Directories → CredentialIndex
unfolding load_credential_id_index
initial_index none = []
initial_index (some directories) = elim (load_credential_id_index directories) [
  | ok index ↦ index
  | err _ ↦ []
]

-- Every entry of an index that is loaded comes from a file of the directory with that credential, and
-- from the key file of the same name.
pub load_credential_id_index-IsOnFile :
    (directories : Directories) (files : List (Result IoError CredentialFile))
    (index : CredentialIndex) (credential_id : Bytes) (key : ClientIdentity)
    → directories.credential_ids ≡ ok files
    → load_credential_id_index directories ≡ ok index
    → HashMap.get credential_id index ≡ some key
    → IsOnFile directories.read_cert credential_id key files
unfolding load_credential_id_index HashMap.get
load_credential_id_index-IsOnFile directories files index credential_id key listed h g =
    elim (load_loop-IsOnFile directories.read_cert files [] index credential_id key (ground arith)
      g) [ inl old ↦ absurd (ground arith) | inr found ↦ found ]
