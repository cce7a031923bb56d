-- ===== src/Merge/Commit.antt =====
-- The bytes of the Git commit that a descriptor of reviewer/merge_descriptor.py names. `sha1_hex`
-- stands for `hashlib.sha1(...).hexdigest()`.
pub mod Codes
pub mod Decimals
use Prim.Native.String.{◌++◌}
use dohwa_hermes_stack.Base.{
  ℕ, suc, ◌+◌, ◌/◌, ◌%◌, List, [], ◌∷◌, String, ltb, length, ℤ, pos, negsuc, codes, decimal_text,
  if◌then◌else◌,
}

abbrev pub append_codes : List ℕ → List ℕ → List ℕ
append_codes [] ds = ds
append_codes (c ∷ cs) ds = c ∷ append_codes cs ds

-- `chr(c).encode("utf-8")` and `text.encode("utf-8")`.
unfoldable pub utf8_of : ℕ → List ℕ
utf8_of c =
    if ltb c 0x80
    then c ∷ []
    else if ltb c 0x800
    then (0xC0 + c / 64) ∷ (0x80 + c % 64) ∷ []
    else if ltb c 0x10000
    then (0xE0 + c / 4096) ∷ (0x80 + c / 64 % 64) ∷ (0x80 + c % 64) ∷ []
    else (0xF0 + c / 262144) ∷ (0x80 + c / 4096 % 64) ∷ (0x80 + c / 64 % 64) ∷ (0x80 + c % 64) ∷ []

unfoldable pub utf8 : List ℕ → List ℕ
utf8 [] = []
utf8 (c ∷ cs) = append_codes (utf8_of c) (utf8 cs)

-- Python's `str(n)` of an integer.
abbrev pub integer_text : ℤ → String
integer_text (pos n) = decimal_text n
integer_text (negsuc n) = "-" ++ decimal_text (suc n)

unfoldable pub raw_commit_bytes :
    String → String → String → String → String → String → String → String → String → List ℕ
raw_commit_bytes tree_oid base_oid head_oid author_name author_email committer_name committer_email
      timestamp message =
    utf8 (
      codes (
        "tree "
        ++ (tree_oid
            ++ ("\nparent "
                ++ (base_oid
                    ++ ("\nparent "
                        ++ (head_oid
                            ++ ("\nauthor "
                                ++ (author_name
                                    ++ (" <"
                                        ++ (author_email
                                            ++ ("> "
                                                ++ (timestamp
                                                    ++ (" +0000\ncommitter "
                                                        ++ (committer_name
                                                            ++ (" <"
                                                            ++ (committer_email
                                                            ++ ("> "
                                                            ++ (timestamp
                                                            ++ (" +0000\n\n"
                                                            ++ message))))))))))))))))))))

unfoldable pub git_object_oid : (List ℕ → String) → List ℕ → String
git_object_oid sha1_hex payload =
    sha1_hex (append_codes (codes ("commit " ++ decimal_text (length payload))) (0 ∷ payload))
