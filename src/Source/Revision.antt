-- ===== src/Source/Revision.antt =====
-- The revision hash of `materializeSecretRevision`
-- (internal/controller/dynamicsecretpolicy_controller.go).
use dynamic_secret_operator.Prelude.{
  Text, Bool, true, false, [], ◌∷◌, ◌++◌, take, ltb, ◌==◌, if◌then◌else◌, ◌||◌, ◌&&◌,
}
use dynamic_secret_operator.Client.{Client, SecretData}
use dynamic_secret_operator.Source.Provider.{SecretPayload}

-- The order of Go's strings.
unfoldable pub text_le : Text → Text → Bool
text_le [] t = true
text_le (c ∷ s) [] = false
text_le (c ∷ s) (d ∷ t) = ltb c d || ((c == d) && text_le s t)

-- `sort.Strings` of the keys, each with its value.
unfoldable pub insert_entry : Text × Text → SecretData → SecretData
insert_entry e [] = e ∷ []
insert_entry (k, v) ((j, w) ∷ m) =
    if text_le k j then (k, v) ∷ (j, w) ∷ m else (j, w) ∷ insert_entry (k, v) m

unfoldable pub sort_entries : SecretData → SecretData
sort_entries [] = []
sort_entries (e ∷ m) = insert_entry e (sort_entries m)

-- What the hasher is written: each key, then its value.
unfoldable pub written : SecretData → Text
written [] = []
written ((k, v) ∷ m) = k ++ (v ++ written m)

-- A payload of one entry writes its value alone.
unfoldable pub entries_preimage : SecretData → Text
unfolding sort_entries written
entries_preimage [] = []
entries_preimage ((k, v) ∷ []) = v
entries_preimage (e ∷ (f ∷ m)) = written (sort_entries (e ∷ (f ∷ m)))

-- An empty version writes nothing.
unfoldable pub preimage : SecretPayload → Text
unfolding entries_preimage
preimage payload = entries_preimage payload.entries ++ payload.version

-- The first 12 characters of the digest.
unfoldable pub revision_hash : Client → SecretPayload → Text
unfolding preimage
revision_hash client payload = take 12 (client.sha256_hex (preimage payload))
