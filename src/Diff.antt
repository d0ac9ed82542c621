-- ===== src/Diff.antt =====
-- scripts/agent-harness.py: the NUL separated output of git.
pub mod Tokens
pub mod RoundTrip
use coffee_order_system.Prelude.{
  ◌≡◌, Bool, true, false, ◌&&◌, ◌||◌, Option, none, some, List, [], ◌∷◌, ◌==◌, nat_eq, text_eq, leb,
  if◌then◌else◌, contains, Text, txt, all, any, length, starts_with, remove_suffix, split,
  decode_surrogateescape,
}
use coffee_order_system.Outcome.{
  Result, ok, violation, Reason, about, value, violation_of, fail, ◌>>=◌, ◌>>◌, reject_if,
  HarnessViolation,
}

-- `_git_diff_error`
abbrev pub git_diff_error : Reason → HarnessViolation
git_diff_error reason = violation_of fail (txt "git.diff") reason

-- `_decode_git_path`
unfoldable pub decode_git_path : Text → Result Text
decode_git_path [] = violation (git_diff_error (about (txt "empty path")))
decode_git_path (b ∷ raw) = ok (decode_surrogateescape (b ∷ raw))

-- `(?:[ACDMTUXB]|[RC][0-9]{0,3})` of an ASCII text.
unfoldable pub is_status : Text → Bool
is_status [] = false
is_status (c ∷ digits) =
    contains (txt "ACDMTUXB") c && digits == []
    || contains (txt "RC") c && all (λ d. leb b'0' d && leb d b'9') digits && leb (length digits) 3

unfoldable pub has_two_paths : Text → Bool
has_two_paths status = starts_with status (txt "R") || starts_with status (txt "C")

-- The tests on one status, and whether two paths follow it.
unfoldable pub check_status : Text → Result Bool
unfolding is_status has_two_paths
check_status raw_status = do
  reject_if (any (λ b. leb 128 b) raw_status) (git_diff_error (about (txt "status is not ASCII")))
  reject_if (if is_status raw_status then false else true)
      (git_diff_error (value (txt "unknown status") raw_status))
  ok (has_two_paths raw_status)

abbrev incomplete : HarnessViolation
incomplete = git_diff_error (about (txt "incomplete stream"))

-- The loop of `parse_name_status` over the tokens.
unfoldable pub parse_tokens : List Text → Result (List Text)
unfolding check_status decode_git_path
parse_tokens [] = ok []
parse_tokens (status ∷ []) = do _ ← check_status status; violation incomplete
parse_tokens (status ∷ a ∷ []) = do
  two ← check_status status
  elim two [ true ↦ violation incomplete | false ↦ do p ← decode_git_path a; ok (p ∷ []) ]
parse_tokens (status ∷ a ∷ b ∷ rest) = do
  two ← check_status status
  elim two [
    | true ↦ do
      p ← decode_git_path a
      q ← decode_git_path b
      more ← parse_tokens rest
      ok (p ∷ q ∷ more)
    | false ↦ do p ← decode_git_path a; more ← parse_tokens (b ∷ rest); ok (p ∷ more)
  ]

unfoldable pub parse_name_status : Text → Result (List Text)
unfolding parse_tokens
parse_name_status [] = ok []
parse_name_status (b ∷ raw) = elim (remove_suffix (b ∷ raw) (0 ∷ [])) [
  | none ↦ violation (git_diff_error (about (txt "name-status without NUL")))
  | some body ↦ parse_tokens (split 0 body)
]

unfoldable pub decode_all : List Text → Result (List Text)
unfolding decode_git_path
decode_all [] = ok []
decode_all (token ∷ tokens) = do p ← decode_git_path token; more ← decode_all tokens; ok (p ∷ more)

unfoldable pub parse_nul_paths : Text → Result (List Text)
unfolding decode_all
parse_nul_paths [] = ok []
parse_nul_paths (b ∷ raw) = elim (remove_suffix (b ∷ raw) (0 ∷ [])) [
  | none ↦ violation (git_diff_error (about (txt "paths without NUL")))
  | some body ↦ decode_all (split 0 body)
]
