-- ===== src/Shell/Getopt/Tests.antt =====
-- Examples for the options.
use termite.Base.{
  ◌≡◌, refl, codes, bytes_beq, true, List, [], ◌∷◌, ◌++◌, insert, has, lookup, is_empty, has_prefix,
  arith,
}
use termite.Shell.Getopt.{getopt, options, read_args, is_long, is_short, with_args}
use termite.Shell.Getopt.Render.{
  Opt, flag, assigned, apart, render_all, render, add_all, add, getopt-render,
}

abbrev given : List Opt
given = flag (codes "v") ∷ assigned (codes "out") (codes "x") ∷ apart 111 (codes "f") ∷ []

getopt-render_example :
    getopt (render_all given ++ codes "--" ∷ codes "-z" ∷ []) (codes "out" ∷ []) (codes "o") true
    ≡ record {
      long = (codes "v", []) ∷ (codes "out", codes "x") ∷ [];
      short = (111, codes "f") ∷ [];
      args = codes "-z" ∷ [];
    }
unfolding render_all render add_all add options insert has lookup is_empty bytes_beq
getopt-render_example = getopt-render (codes "out" ∷ []) (codes "o") true given (codes "-z" ∷ []) (
  (refl, (λ e. ground arith, tt), refl),
  (
    ((λ e. ground arith, (λ e. ground arith, (λ e. ground arith, tt))), refl),
    ((λ e. ground arith, λ e. ground arith, refl), tt),
  ),
)

-- With reordering, an argument before `--` is lost.
argument_lost : (getopt (codes "a" ∷ codes "--" ∷ codes "b" ∷ []) [] [] true).args ≡ codes "b" ∷ []
unfolding getopt options read_args is_long is_short with_args is_empty bytes_beq has_prefix
argument_lost = refl
