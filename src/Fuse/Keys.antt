-- ===== src/Fuse/Keys.antt =====
-- The keys of files in internal/fusefs/fs.go: parseContentKey undoes ContentKey of internal/catalog.
use torbox_fuse_go.Base.{ℕ, false, [], ◌∷◌, ◌++◌, Str, ◌==◌, ◌≡◌, ◌≢◌, refl, arith, All}
use torbox_fuse_go.Catalog.{File, content_key}
use torbox_fuse_go.Torbox.{permalink_url}
use torbox_fuse_go.Fuse.{FileNode}
use torbox_fuse_go.Fuse.Removal.{key_parts, parse_content_key, build_permalink}

abbrev pub NoColon : Str → Type 0
NoColon s = All (λ c. c ≢ b':') s

not_same : (a b : ℕ) → a ≢ b → (a == b) ≡ false
not_same a b h = ground arith

key_parts-append : (s rest : Str) → NoColon s → key_parts (s ++ (b':' ∷ rest)) ≡ s ∷ key_parts rest
unfolding key_parts
key_parts-append [] rest h = refl
key_parts-append (c ∷ cs) rest h = rw (not_same c b':' h.0, key_parts-append cs rest h.1) refl

key_parts_whole : (s : Str) → NoColon s → key_parts s ≡ s ∷ []
unfolding key_parts
key_parts_whole [] h = refl
key_parts_whole (c ∷ cs) h = rw (not_same c b':' h.0, key_parts_whole cs h.1) refl

-- addFileNode
abbrev pub file_node : Str → Str → File → FileNode
file_node api_base_url api_key f = record {
  file_key = content_key f;
  permalink = permalink_url api_base_url api_key f.download_kind f.download_id f.file_id;
  node_size = f.size;
}

-- The callback for addresses, given the key of a file's node, makes the address that the node has, if
-- no part of the key has a colon.
pub build_permalink_of_node :
    (base_url api_key : Str) (f : File)
    → NoColon f.download_kind
    → NoColon f.download_id
    → NoColon f.file_id
    → build_permalink base_url api_key (file_node base_url api_key f).file_key
      ≡ (file_node base_url api_key f).permalink
unfolding build_permalink parse_content_key
build_permalink_of_node base_url api_key f h k l =
    rw
      (
        key_parts-append f.download_kind (f.download_id ++ (b':' ∷ f.file_id)) h,
        key_parts-append f.download_id f.file_id k,
        key_parts_whole f.file_id l,
      )
      refl
