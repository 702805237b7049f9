-- ===== src/BuildScript.antt =====
-- inner_unikernel_rt/build.rs, the build script of the runtime: it runs build.py, which generates the
-- bindings, builds the stub library with gcc, and tells cargo where to find it. What the script asks
-- of the system is the record Host; paths are texts in UTF-8.
use linux_kernel_development.Prelude.{ℕ, ◌≡◌, refl, inl, inr, Bool-cases, Bool, true, if◌then◌else◌}
use linux_kernel_development.Prelude.{Option, none, some, List, [], ◌∷◌, ◌++◌}
use linux_kernel_development.Prelude.{Outcome, ok, panics, unwrap_none, explicit_panic}
use linux_kernel_development.Prelude.Slices.{bytes}

abbrev Text : Type 0
Text = List ℕ

-- `std::io::Result`, with an error number.
pub data Io (A : Type 0) : Type 0 where
  done : A → Io A
  failed : ℕ → Io A

-- `std::process::Output`; `success` is what `exit_ok` looks at.
pub record Output : Type 0 where
  pub success : Bool
  pub stdout : Text
  pub stderr : Text

-- The environment and the system, in states of type `S`: `Command::output`, `Path` and `fs`.
pub record Host (S : Type 0) : Type 0 where
  pub var : Text → Option Text
  pub output : Text → List Text → S → Io Output × S
  pub join : Text → Text → Text
  pub exists : Text → S → Bool
  pub create_dir : Text → S → Io (Unit {0}) × S
  pub canonicalize : Text → S → Io Text × S

-- The system's state, and what the script has printed.
pub record Run (S : Type 0) : Type 0 where
  pub system : S
  pub printed : List Text

abbrev Action : Type 0 → Type 0 → Type 0
Action S A = Run S → Outcome (Io A × Run S)

-- `?` after a call of the system, and the rest of the script.
infixl 5 ◌>>=◌ ◌>>◌
abbrev ◌>>=◌ : {S A B : Type 0} → Action S A → (A → Action S B) → Action S B
◌>>=◌ m f r = elim (m r) [
  | panics p ↦ panics p
  | ok (failed e, r') ↦ ok (failed e, r')
  | ok (done a, r') ↦ f a r'
]

abbrev ◌>>◌ : {S A B : Type 0} → Action S A → Action S B → Action S B
m >> k = m >>= λ _. k

module _ {S : Type 0} where
  abbrev ask : {A : Type 0} → (S → Io A × S) → Action S A
  ask call r = ok ((call r.system).0, record r { system = (call r.system).1 })

  abbrev unwrap : {A : Type 0} → Option A → Action S A
  unwrap none r = panics unwrap_none
  unwrap (some a) r = ok (done a, r)

  abbrev print : Text → Action S (Unit {0})
  print text r = ok (done tt, record r { printed = r.printed ++ text ∷ [] })

  abbrev println : Text → Action S (Unit {0})
  println text = print (text ++ 10 ∷ [])

  -- What follows the run of build.py: its output is printed if it succeeded.
  abbrev expect_success : Output → Action S (Unit {0})
  expect_success out r = if out.success then print out.stdout r else panics explicit_panic

module _ {S : Type 0} (h : Host S) where
  -- `if !iustub_outdir.exists() { fs::create_dir(&iustub_outdir)?; }`
  abbrev ensure_dir : Text → Action S (Unit {0})
  ensure_dir dir r = if h.exists dir r.system then ok (done tt, r) else ask (h.create_dir dir) r

  -- The arguments of the compiler.
  abbrev gcc_arguments : Text → List Text
  gcc_arguments iustub_so =
      bytes "-fPIC"
      ∷ bytes "-nostartfiles"
      ∷ bytes "-nodefaultlibs"
      ∷ bytes "--shared"
      ∷ bytes "-o"
      ∷ iustub_so
      ∷ bytes "./libiustub/lib.c"
      ∷ []

  -- What cargo reads.
  abbrev announce : Text → Action S (Unit {0})
  announce dir = do
    println (bytes "cargo:rerun-if-changed=Cargo.toml")
    println (bytes "cargo:rerun-if-changed=./src/*")
    println (bytes "cargo:rerun-if-changed=./libiustub/*")
    println (bytes "cargo:rustc-link-lib=dylib=iustub")
    println (bytes "cargo:rustc-link-search=native=" ++ dir)

  unfoldable main : Action S (Unit {0})
  main = do
    out_dir ← unwrap (h.var (bytes "OUT_DIR"))
    linux_dir ← unwrap (h.var (bytes "LINUX"))
    output ← ask (h.output (bytes "python3") (bytes "build.py" ∷ linux_dir ∷ out_dir ∷ []))
    expect_success output
    let iustub_outdir = h.join out_dir (bytes "libiustub")
    ensure_dir iustub_outdir
    let iustub_so = h.join iustub_outdir (bytes "libiustub.so")
    compiled ← ask (h.output (bytes "gcc") (gcc_arguments iustub_so))
    iustub_outdir' ← ask (h.canonicalize iustub_outdir)
    announce iustub_outdir'

-- Inversions of steps that did not fail.
module _ {S A B : Type 0} (f : A → Action S B) (r r' : Run S) (b : B) where
  unwrap-eq-done :
      (o : Option A)
      → (unwrap o >>= f) r ≡ ok (done b, r')
      → (a : A) × (o ≡ some a) × (f a r ≡ ok (done b, r'))
  unwrap-eq-done none returned = cc
  unwrap-eq-done (some a) returned = (a, refl, returned)

  ask-eq-done :
      (call : S → Io A × S)
      → (ask call >>= f) r ≡ ok (done b, r')
      → (a : A) × (r₁ : Run S) × ((call r.system).0 ≡ done a) × (f a r₁ ≡ ok (done b, r'))
  ask-eq-done call returned = by_result (call r.system).0 refl returned
    where
      after : Run S
      after = record r { system = (call r.system).1 }

      by_result :
          (o : Io A)
          → (call r.system).0 ≡ o
          → ((λ _. ok (o, after)) >>= f) r ≡ ok (done b, r')
          → (a : A) × (r₁ : Run S) × ((call r.system).0 ≡ done a) × (f a r₁ ≡ ok (done b, r'))
      by_result (failed e) came returned = cc
      by_result (done a) came returned = (a, after, came, returned)

expect_success-eq-done :
    {S B : Type 0} (k : Action S B) (out : Output) (r r' : Run S) (b : B)
    → (expect_success out >> k) r ≡ ok (done b, r')
    → out.success ≡ true
expect_success-eq-done k out r r' b returned = elim (Bool-cases out.success) [
  | inl succeeded ↦ succeeded
  | inr not_so ↦ let panicked = rw not_so at returned in cc
]

module _ {S : Type 0} (h : Host S) where
  -- The script succeeds only if both variables are set and build.py ran and succeeded. (Of gcc it
  -- asks only that it could be started.)
  main-built :
      (r r' : Run S)
      → main h r ≡ ok (done tt, r')
      → (out_dir : Text) × (linux_dir : Text) × (output : Output) × (h.var (bytes "OUT_DIR")
          ≡ some out_dir)
        × (h.var (bytes "LINUX") ≡ some linux_dir)
        × ((h.output (bytes "python3") (bytes "build.py" ∷ linux_dir ∷ out_dir ∷ []) r.system).0
            ≡ done output)
        × (output.success ≡ true)
  unfolding main
  main-built r r' returned =
      let (out_dir, set, rest) = unwrap-eq-done _ r r' tt (h.var (bytes "OUT_DIR")) returned in
      let (linux_dir, set', rest') = unwrap-eq-done _ r r' tt (h.var (bytes "LINUX")) rest in
      let (output, r₁, ran, rest'') = ask-eq-done _ r r' tt (h.output _ _) rest' in
      let succeeded = expect_success-eq-done _ output r₁ r' tt rest'' in
      (out_dir, linux_dir, output, set, set', ran, succeeded)
