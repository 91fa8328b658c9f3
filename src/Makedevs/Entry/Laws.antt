-- ===== src/Makedevs/Entry/Laws.antt =====
-- package/makedevs/makedevs.c: the nodes that an entry of the table stands for.
use cargos_buildroot.Base.{
  ℕ, zero, suc, ◌+◌, ◌-◌, ◌≡◌, refl, Bool, true, false, ◌*◌, ◌%◌, ◌^◌, ◌++◌, leb, if◌then◌else◌,
  List, [], ◌∷◌, Text, arith, ap, subst, none, some, ◌==◌, ◌∙◌, sym, ◌≢◌, ◌⊎◌, inl, inr, Bool-cases,
}
use cargos_buildroot.Makedevs.System.{System, Entry}
use cargos_buildroot.Makedevs.Entry.{
  Node, node_at, make_node, make_nodes, both, enter_nodes, node_mode, or_bit,
}

-- The nodes `i = start + k` and on, and making the nodes of a list one after the other.
abbrev pub nodes_from : {W : Type 0} → System W → Entry → Text → ℕ → ℕ → ℕ → List Node
nodes_from sys e full_name count zero k = []
nodes_from sys e full_name count (suc rounds) k =
    node_at sys e full_name count k ∷ nodes_from sys e full_name count rounds (suc k)

abbrev pub make_all : {W : Type 0} → System W → ℕ → ℕ → ℕ → List Node → W → Bool × W
make_all sys mode uid gid [] w = (true, w)
make_all sys mode uid gid (n ∷ ns) w =
    both (make_node sys mode uid gid n w).0
      (make_all sys mode uid gid ns (make_node sys mode uid gid n w).1)

make_nodes_all :
    {W : Type 0} (sys : System W) (e : Entry) (full_name : Text) (mode uid gid count rounds k : ℕ)
    (w : W)
    → make_nodes sys e full_name mode uid gid count rounds k w
      ≡ make_all sys mode uid gid (nodes_from sys e full_name count rounds k) w
unfolding make_nodes
make_nodes_all sys e full_name mode uid gid count zero k w = refl
make_nodes_all sys e full_name mode uid gid count (suc rounds) k w =
    ap (both (make_node sys mode uid gid (node_at sys e full_name count k) w).0) (
      make_nodes_all sys e full_name mode uid gid count rounds (suc k)
        (make_node sys mode uid gid (node_at sys e full_name count k) w).1)

-- The numbered nodes from the k-th on, and the nodes of an entry by the text of the usage message: a
-- count of 0 or 1 stands for one node without a number, a greater count for the numbers from
-- `start` on, whose minor device numbers go up from `minor` by `increment`.
abbrev pub numbered : {W : Type 0} → System W → Entry → Text → ℕ → ℕ → List Node
numbered sys e full_name zero k = []
numbered sys e full_name (suc n) k =
    record {
      path = full_name ++ sys.print (e.start + k);
      device = sys.makedev e.major ((e.minor + k * e.increment) % 2 ^ 32);
    }
    ∷ numbered sys e full_name n (suc k)

unfoldable pub nodes_of : {W : Type 0} → System W → Entry → Text → List Node
nodes_of sys e full_name =
    if leb e.count 1
    then record { path = full_name; device = sys.makedev e.major (e.minor % 2 ^ 32) } ∷ []
    else numbered sys e full_name e.count 0

nodes_from-numbered :
    {W : Type 0} (sys : System W) (e : Entry) (full_name : Text) (count rounds k : ℕ)
    → (count == 0) ≡ false
    → nodes_from sys e full_name count rounds k ≡ numbered sys e full_name rounds k
nodes_from-numbered sys e full_name count zero k h = refl
nodes_from-numbered sys e full_name count (suc rounds) k h =
    rw (h, nodes_from-numbered sys e full_name count rounds (suc k) h) refl

single_node :
    {W : Type 0} (sys : System W) (e : Entry) (full_name : Text)
    → node_at sys e full_name 0 0
      ≡ record { path = full_name; device = sys.makedev e.major (e.minor % 2 ^ 32) }
single_node sys e full_name =
    let first : e.minor + 0 * e.increment ≡ e.minor = omega arith in
    let node : ℕ → Node =
      λ m. record { path = full_name; device = sys.makedev e.major (m % 2 ^ 32) } in
    ap node first

nodes_from-nodes_of :
    {W : Type 0} (sys : System W) (e : Entry) (full_name : Text) (count : ℕ)
    → count ≡ e.count - 1
    → nodes_from sys e full_name count (suc count) 0 ≡ nodes_of sys e full_name
unfolding nodes_of
nodes_from-nodes_of sys e full_name zero h =
    let one : leb e.count 1 ≡ true = ground arith in
    rw one (ap (λ n. n ∷ []) (single_node sys e full_name))
nodes_from-nodes_of sys e full_name (suc n) h =
    let many : leb e.count 1 ≡ false = ground arith in
    let rounds : suc (suc n) ≡ e.count = omega (arith, h) in
    let left = nodes_from sys e full_name (suc n) (suc (suc n)) 0 in
    rw many (
      subst (λ k. left ≡ numbered sys e full_name k 0) rounds
        (nodes_from-numbered sys e full_name (suc n) (suc (suc n)) 0 (ground arith)))

enter_nodes-make_all :
    {W : Type 0} (sys : System W) (e : Entry) (full_name : Text) (uid gid mode : ℕ) (w : W)
    → node_mode e.type e.mode ≡ some mode
    → enter_nodes sys e full_name uid gid w ≡ make_all sys mode uid gid (nodes_of sys e full_name) w
unfolding enter_nodes
enter_nodes-make_all sys e full_name uid gid mode w h =
    rw (enter_nodes, h)
      (make_nodes_all sys e full_name mode uid gid (e.count - 1) (suc (e.count - 1)) 0 w
        ∙ ap (λ ns. make_all sys mode uid gid ns w)
            (nodes_from-nodes_of sys e full_name (e.count - 1) refl))

-- The types p, c and b of an entry, with the mode that `mknod` gets: S_IFIFO, S_IFCHR or S_IFBLK is added.
pub data NodeMode (mode : ℕ) : ℕ → ℕ → Type 0 where
  fifo : NodeMode mode b'p' (or_bit mode 12)
  character : NodeMode mode b'c' (or_bit mode 13)
  block_device : NodeMode mode b'b' (or_bit (or_bit mode 13) 14)

abbrev pub IsUnsupported : ℕ → Type 0
IsUnsupported type = (type ≢ b'p') × (type ≢ b'c') × (type ≢ b'b')

-- The calls for nodes, from a state to a state: for each node mknod, chown and chmod, of which the first that fails is
-- the last for the node. The Boolean is that no call failed.
pub data Makes {W : Type 0} (sys : System W) (mode uid gid : ℕ)
    : List Node → W → Bool → W → Type 0 where
  done : {w : W} → Makes sys mode uid gid [] w true w
  made :
      {n : Node} {ns : List Node} {w w₁ w₂ w₃ w' : W} {ok : Bool}
      → sys.mknod n.path mode n.device w ≡ (true, w₁)
      → sys.chown n.path uid gid w₁ ≡ (true, w₂)
      → sys.chmod n.path mode w₂ ≡ (true, w₃)
      → Makes sys mode uid gid ns w₃ ok w'
      → Makes sys mode uid gid (n ∷ ns) w ok w'
  no_node :
      {n : Node} {ns : List Node} {w w₁ w' : W} {ok : Bool}
      → sys.mknod n.path mode n.device w ≡ (false, w₁)
      → Makes sys mode uid gid ns w₁ ok w'
      → Makes sys mode uid gid (n ∷ ns) w false w'
  no_owner :
      {n : Node} {ns : List Node} {w w₁ w₂ w' : W} {ok : Bool}
      → sys.mknod n.path mode n.device w ≡ (true, w₁)
      → sys.chown n.path uid gid w₁ ≡ (false, w₂)
      → Makes sys mode uid gid ns w₂ ok w'
      → Makes sys mode uid gid (n ∷ ns) w false w'
  no_mode :
      {n : Node} {ns : List Node} {w w₁ w₂ w₃ w' : W} {ok : Bool}
      → sys.mknod n.path mode n.device w ≡ (true, w₁)
      → sys.chown n.path uid gid w₁ ≡ (true, w₂)
      → sys.chmod n.path mode w₂ ≡ (false, w₃)
      → Makes sys mode uid gid ns w₃ ok w'
      → Makes sys mode uid gid (n ∷ ns) w false w'

result_cases :
    {W : Type 0} (r : Bool × W) → ((w : W) × (r ≡ (true, w))) ⊎ ((w : W) × (r ≡ (false, w)))
result_cases (true, w) = inl (w, refl)
result_cases (false, w) = inr (w, refl)

make_all-Makes :
    {W : Type 0} (sys : System W) (mode uid gid : ℕ) (ns : List Node) (w : W)
    → let r = make_all sys mode uid gid ns w in Makes sys mode uid gid ns w r.0 r.1
unfolding make_node
make_all-Makes sys mode uid gid [] w = done
make_all-Makes sys mode uid gid (n ∷ ns) w =
    elim (result_cases (sys.mknod n.path mode n.device w)) [
      | inr (w₁, e) ↦ rw (make_node, e) (no_node e (make_all-Makes sys mode uid gid ns w₁))
      | inl (w₁, e) ↦ elim (result_cases (sys.chown n.path uid gid w₁)) [
        | inr (w₂, f) ↦ rw (make_node, e, f) (no_owner e f (make_all-Makes sys mode uid gid ns w₂))
        | inl (w₂, f) ↦ elim (result_cases (sys.chmod n.path mode w₂)) [
          | inr (w₃, g) ↦
              rw (make_node, e, f, g) (no_mode e f g (make_all-Makes sys mode uid gid ns w₃))
          | inl (w₃, g) ↦
              rw (make_node, e, f, g) (made e f g (make_all-Makes sys mode uid gid ns w₃))
        ]
      ]
    ]

node_mode_cases :
    (type mode : ℕ)
    → ((m : ℕ) × (node_mode type mode ≡ some m) × NodeMode mode type m)
      ⊎ ((node_mode type mode ≡ none) × IsUnsupported type)
unfolding node_mode
node_mode_cases type mode = elim (Bool-cases (type == b'p')) [
  | inl e ↦
      let same : b'p' ≡ type = ground arith in
      inl (or_bit mode 12, rw e refl, subst (λ t. NodeMode mode t (or_bit mode 12)) same fifo)
  | inr e ↦ elim (Bool-cases (type == b'c')) [
    | inl f ↦
        let same : b'c' ≡ type = ground arith in
        inl (
          or_bit mode 13,
          rw (e, f) refl,
          subst (λ t. NodeMode mode t (or_bit mode 13)) same character,
        )
    | inr f ↦ elim (Bool-cases (type == b'b')) [
      | inl g ↦
          let same : b'b' ≡ type = ground arith in
          let m = or_bit (or_bit mode 13) 14 in
          inl (m, rw (e, f, g) refl, subst (λ t. NodeMode mode t m) same block_device)
      | inr g ↦ inr (rw (e, f, g) refl, (ground arith, ground arith, ground arith))
    ]
  ]
]

-- An entry of the type p, c or b makes its nodes one after the other, each by mknod, chown and chmod with the mode of
-- the type, up to the first of the three that fails, and is a success if no call fails; an entry of another type fails
-- and changes nothing.
pub enter_nodes_lem :
    {W : Type 0} (sys : System W) (e : Entry) (full_name : Text) (uid gid : ℕ) (w : W)
    → let r = enter_nodes sys e full_name uid gid w in
      ((mode : ℕ) × NodeMode e.mode e.type mode
        × Makes sys mode uid gid (nodes_of sys e full_name) w r.0 r.1)
      ⊎ (IsUnsupported e.type × (r ≡ (false, w)))
unfolding enter_nodes
enter_nodes_lem sys e full_name uid gid w = elim (node_mode_cases e.type e.mode) [
  | inl (mode, h, t) ↦ inl (
    mode,
    t,
    subst (λ r. Makes sys mode uid gid (nodes_of sys e full_name) w r.0 r.1)
        (sym (enter_nodes-make_all sys e full_name uid gid mode w h))
        (make_all-Makes sys mode uid gid (nodes_of sys e full_name) w),
  )
  | inr (h, t) ↦ inr (t, rw (enter_nodes, h) refl)
]
