-- ===== src/Socket/Kept.antt =====
-- The descriptors that the functions of libmixp/socket.c leave open.
use libmixp.Base.{
  ℕ, ◌≡◌, sym, ap, ◌∙◌, inl, inr, Bool, true, false, Option, none, some, Bytes, ◌==◌, ==→eq,
  if◌then◌else◌, Bool-cases, if_true, if_false,
}
use libmixp.Socket.{
  Sockaddr, Domain, af_unix, Net, unix_sockaddr, or_close, and_then, sock_unix, connect_to,
  dial_unix, listening, announce_file, announce_unix,
}

module _ {W : Type 0} where
  -- A descriptor is open that was not, and all else is as it was.
  abbrev pub Opens : (W → ℕ → Bool) → W → W → ℕ → Type 0
  Opens is_open w w1 fd =
      (is_open w fd ≡ false) × ((q : ℕ) → is_open w1 q ≡ (if q == fd then true else is_open w q))

  abbrev pub Same : (W → ℕ → Bool) → W → W → Type 0
  Same is_open w w1 = (q : ℕ) → is_open w1 q ≡ is_open w q

  -- The result is the one descriptor that is open more, or none is.
  abbrev pub Kept : (W → ℕ → Bool) → W → W × Option ℕ → Type 0
  Kept is_open w (w1, none) = Same is_open w w1
  Kept is_open w (w1, some fd) = Opens is_open w w1 fd

-- The descriptors of a process: `socket` opens one that was not open, `close` closes the one it is given, and
-- no other call opens or closes any.
pub record Descriptors {W : Type 0} (net : Net W) : Type 0 where
  pub is_open : W → ℕ → Bool
  pub socket : (d : Domain) (w : W) → Kept is_open w (net.socket d w)
  pub close :
      (fd : ℕ) (w : W) (q : ℕ)
      → is_open (net.close fd w) q ≡ (if q == fd then false else is_open w q)
  pub connect : (fd : ℕ) (sa : Sockaddr) (w : W) → Same is_open w (net.connect fd sa w).0
  pub bind : (fd : ℕ) (sa : Sockaddr) (w : W) → Same is_open w (net.bind fd sa w).0
  pub listen : (fd : ℕ) (w : W) → Same is_open w (net.listen fd w).0
  pub reuse : (fd : ℕ) (w : W) → Same is_open w (net.reuse fd w).0
  pub remove_file : (file : Bytes) (w : W) → Same is_open w (net.remove_file file w)
  pub restrict_file : (file : Bytes) (w : W) → Same is_open w (net.restrict_file file w)
  pub shutdown : (fd : ℕ) (w : W) → Same is_open w (net.shutdown fd w)
  pub gethostbyname : (host : Bytes) (w : W) → Same is_open w (net.gethostbyname host w).0

module _ {W : Type 0} (net : Net W) (files : Descriptors net) where
  open files use {is_open}

  pub Opens-Same :
      (w w1 w2 : W) (fd : ℕ) → Opens is_open w w1 fd → Same is_open w1 w2 → Opens is_open w w2 fd
  Opens-Same w w1 w2 fd (new, h) same = (new, λ q. same q ∙ h q)

  pub closed : (w w1 : W) (fd : ℕ) → Opens is_open w w1 fd → Same is_open w (net.close fd w1)
  closed w w1 fd (new, h) q = files.close fd w1 q ∙ elim (Bool-cases (q == fd)) [
    | inl same ↦ if_true _ same ∙ sym (ap (is_open w) (==→eq q fd same) ∙ new)
    | inr other ↦ if_false _ other ∙ h q ∙ if_false _ other
  ]

  pub or_close-Kept :
      (w : W) (fd : ℕ) (r : W × Bool) → Opens is_open w r.0 fd → Kept is_open w (or_close net fd r)
  unfolding or_close
  or_close-Kept w fd (w1, true) h = h
  or_close-Kept w fd (w1, false) h = closed w w1 fd h

  pub and_then-Kept :
      (w : W) (fd : ℕ) (next : W → W × Option ℕ) (r : W × Bool)
      → Opens is_open w r.0 fd
      → ((w1 : W) → Opens is_open w w1 fd → Kept is_open w (next w1))
      → Kept is_open w (and_then net fd next r)
  unfolding and_then
  and_then-Kept w fd next (w1, true) h k = k w1 h
  and_then-Kept w fd next (w1, false) h k = closed w w1 fd h

  connect_to-Kept :
      (w : W) (sa : Sockaddr) (r : W × Option ℕ)
      → Kept is_open w r
      → Kept is_open w (connect_to net sa r)
  unfolding connect_to
  connect_to-Kept w sa (w1, none) h = h
  connect_to-Kept w sa (w1, some fd) h =
      or_close-Kept w fd (net.connect fd sa w1) (Opens-Same w w1 _ fd h (files.connect fd sa w1))

  pub listening-Kept :
      (w : W) (fd : ℕ) (w1 : W) → Opens is_open w w1 fd → Kept is_open w (listening net fd w1)
  unfolding listening
  listening-Kept w fd w1 h =
      or_close-Kept w fd (net.listen fd w1) (Opens-Same w w1 _ fd h (files.listen fd w1))

  pub dial_unix-Kept : (address : Bytes) (w : W) → Kept is_open w (dial_unix net address w)
  unfolding dial_unix sock_unix
  dial_unix-Kept address w = connect_to-Kept w (unix_sockaddr address) _ (files.socket af_unix w)

  bound-Kept :
      (w : W) (fd : ℕ) (file : Bytes) (w1 : W)
      → Opens is_open w w1 fd
      → Kept is_open w (
          and_then net fd
            (λ w2. listening net fd (net.restrict_file file w2))
            (net.bind fd (unix_sockaddr file) (net.remove_file file w1)))
  bound-Kept w fd file w1 h =
      let h1 = Opens-Same w w1 _ fd h (files.remove_file file w1) in
      and_then-Kept w fd _ _
        (Opens-Same w (net.remove_file file w1) _ fd h1
          (files.bind fd (unix_sockaddr file) (net.remove_file file w1)))
        (λ w2 h2. listening-Kept w fd _ (Opens-Same w w2 _ fd h2 (files.restrict_file file w2)))

  announce_file-Kept :
      (w : W) (file : Bytes) (r : W × Option ℕ)
      → Kept is_open w r
      → Kept is_open w (announce_file net file r)
  unfolding announce_file
  announce_file-Kept w file (w1, none) h = h
  announce_file-Kept w file (w1, some fd) h =
      and_then-Kept w fd _ (net.reuse fd w1) (Opens-Same w w1 _ fd h (files.reuse fd w1))
        (bound-Kept w fd file)

  pub announce_unix-Kept : (file : Bytes) (w : W) → Kept is_open w (announce_unix net file w)
  unfolding announce_unix sock_unix
  announce_unix-Kept file w = announce_file-Kept w file _ (files.socket af_unix w)
