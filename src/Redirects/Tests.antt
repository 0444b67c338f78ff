-- ===== src/Redirects/Tests.antt =====
-- Calls and what becomes of them.
use libdwarfs.Prelude.{ℕ, ◌≡◌, refl, true, false, some, [], ◌∷◌, ascii, bytes_eq}
use libdwarfs.Redirects.{
  argument, number, expand, lookup, write, posix_redirects, ruby_redirects, shared_redirects, nargs,
  va_args, arg_n, rseq,
}

rewinds :
    expand {A = ℕ} (λ feature. true) posix_redirects (ascii "rewinddir") (7 ∷ [])
    ≡ some (ascii "tebako_seekdir", argument 7 ∷ number 0 ∷ [])
unfolding expand lookup write posix_redirects bytes_eq va_args
rewinds = refl

-- Without the feature the call is the system's.
no_scandir :
    expand {A = ℕ} (λ feature. false) posix_redirects (ascii "scandir") (7 ∷ [])
    ≡ some (ascii "scandir", argument 7 ∷ [])
unfolding expand lookup write posix_redirects shared_redirects bytes_eq
no_scandir = refl

ruby_open :
    expand {A = ℕ} (λ feature. false) ruby_redirects (ascii "rb_w32_uopen") (7 ∷ 8 ∷ 9 ∷ [])
    ≡ some (ascii "tebako_open", number 3 ∷ argument 7 ∷ argument 8 ∷ argument 9 ∷ [])
unfolding expand lookup write ruby_redirects shared_redirects bytes_eq nargs va_args arg_n rseq
ruby_open = refl
