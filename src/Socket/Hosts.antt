-- ===== src/Socket/Hosts.antt =====
-- libmixp/socket.c, sock_tcp_2: the descriptors left open where a host is resolved, and where it is not.
use libmixp.Base.{
  ℕ, ◌≡◌, ◌≢◌, ◌⊎◌, refl, sym, ap, ◌∙◌, inl, inr, true, false, Option, none, some, Bytes, if_true,
  if_false, if_elim,
}
use mathlib.Core.Path.{subst}
use libmixp.Request.{same_bytes}
use libmixp.Addr.{ℤ, pos, negsuc}
use libmixp.Socket.{
  Sockaddr, inet, af_inet, Net, get_port, net_port, any_host, dial_unix, listening, announce_unix,
  resolved, host_address, sock_tcp_2, connect_tcp, dial_tcp_2, announce_at, announce_tcp,
}
use libmixp.Socket.Kept.{
  Opens, Same, Kept, Descriptors, Opens-Same, or_close-Kept, and_then-Kept, listening-Kept,
  dial_unix-Kept, announce_unix-Kept,
}

module _ {W : Type 0} (net : Net W) (files : Descriptors net) where
  open files use {is_open}

  -- The host is `*`, or the resolver knows it.
  abbrev pub Resolves : Bytes → Type 0
  Resolves host =
      (same_bytes host any_host ≡ true) ⊎ ((w : W) → (net.gethostbyname host w).1 ≢ none)

  abbrev Ready : W → W × Option (ℕ × Sockaddr) → Type 0
  Ready w (w1, none) = Same is_open w w1
  Ready w (w1, some (fd, sa)) = Opens is_open w w1 fd

  resolved-Ready :
      (w : W) (port fd : ℕ) (r : W × Option Bytes)
      → Opens is_open w r.0 fd
      → r.1 ≢ none
      → Ready w (resolved net port fd r)
  unfolding resolved
  resolved-Ready w port fd (w1, none) h known = absurd (known refl)
  resolved-Ready w port fd (w1, some addr) h known = h

  host_address-Ready :
      (w : W) (host : Bytes) (port : ℕ) (r : W × Option ℕ)
      → Resolves host
      → Kept is_open w r
      → Ready w (host_address net host port r)
  unfolding host_address
  host_address-Ready w host port (w1, none) known h = h
  host_address-Ready w host port (w1, some fd) (inl any) h = subst (Ready w) (sym (if_true _ any)) h
  host_address-Ready w host port (w1, some fd) (inr known) h =
      if_elim (Ready w) (same_bytes host any_host) (w1, some (fd, inet none (net_port port)))
        (resolved net port fd (net.gethostbyname host w1)) (λ any. h)
        (λ other.
          resolved-Ready w port fd (net.gethostbyname host w1)
            (Opens-Same net files w w1 _ fd h (files.gethostbyname host w1)) (known w1))

  sock_tcp_2-Ready :
      (host : Bytes) (port : ℤ) (w : W) → Resolves host → Ready w (sock_tcp_2 net host port w)
  unfolding sock_tcp_2
  sock_tcp_2-Ready host (negsuc n) w known = λ q. refl
  sock_tcp_2-Ready host (pos port) w known =
      host_address-Ready w host port _ known (files.socket af_inet w)

  connect_tcp-Kept :
      (w : W) (r : W × Option (ℕ × Sockaddr)) → Ready w r → Kept is_open w (connect_tcp net r)
  unfolding connect_tcp
  connect_tcp-Kept w (w1, none) h = h
  connect_tcp-Kept w (w1, some (fd, sa)) h =
      or_close-Kept net files w fd (net.connect fd sa w1)
        (Opens-Same net files w w1 _ fd h (files.connect fd sa w1))

  announce_at-Kept :
      (w : W) (r : W × Option (ℕ × Sockaddr)) → Ready w r → Kept is_open w (announce_at net r)
  unfolding announce_at
  announce_at-Kept w (w1, none) h = h
  announce_at-Kept w (w1, some (fd, sa)) h =
      and_then-Kept net files w fd (listening net fd) (net.bind fd sa w1)
        (Opens-Same net files w w1 _ fd h (files.bind fd sa w1)) (listening-Kept net files w fd)

  host_address-leaks :
      (w : W) (host : Bytes) (port fd : ℕ) (w1 : W)
      → same_bytes host any_host ≡ false
      → (net.gethostbyname host w1).1 ≡ none
      → Opens is_open w w1 fd
      → (w2 : W) × (host_address net host port (w1, some fd) ≡ (w2, none)) × Opens is_open w w2 fd
  unfolding host_address resolved
  host_address-leaks w host port fd w1 other unknown h =
      let (w2, answer) = net.gethostbyname host w1 in
      (
        w2,
        if_false _ other ∙ ap (λ (o : Option Bytes). resolved net port fd (w2, o)) unknown,
        Opens-Same net files w w1 w2 fd h (files.gethostbyname host w1),
      )

  dial-leaks :
      (host : Bytes) (port : ℕ) (w : W) (fd : ℕ) (r : W × Option ℕ)
      → same_bytes host any_host ≡ false
      → ((w1 : W) → (net.gethostbyname host w1).1 ≡ none)
      → Kept is_open w r
      → r.1 ≡ some fd
      → (w2 : W) × (connect_tcp net (host_address net host port r) ≡ (w2, none))
        × Opens is_open w w2 fd
  unfolding connect_tcp
  dial-leaks host port w fd (w1, none) other unknown h e = cc e
  dial-leaks host port w fd (w1, some fd1) other unknown h e =
      let same : fd1 ≡ fd = cc e in
      let (w2, none_left, now_open) = host_address-leaks w host port fd1 w1 other (unknown w1) h in
      (w2, ap (connect_tcp net) none_left, subst (Opens is_open w w2) same now_open)

  -- Dialling or announcing a unix address leaves open, of the descriptors that were not, just the one that it
  -- returns, and none where it fails. So does dialling or announcing a host that is `*` or that the resolver
  -- knows. Dialling a host that it does not know fails and leaves the new socket open.
  pub dial_tcp_2-Kept :
      ((address : Bytes) (w : W) → Kept is_open w (dial_unix net address w))
      × ((file : Bytes) (w : W) → Kept is_open w (announce_unix net file w))
      × ((host : Bytes) (port : ℤ) (w : W)
          → Resolves host
          → Kept is_open w (dial_tcp_2 net host port w))
      × ((addr : Bytes) (w : W)
          → Resolves (get_port addr).0
          → Kept is_open w (announce_tcp net addr w))
      × ((host : Bytes) (port : ℕ) (w : W) (fd : ℕ)
          → same_bytes host any_host ≡ false
          → ((w1 : W) → (net.gethostbyname host w1).1 ≡ none)
          → (net.socket af_inet w).1 ≡ some fd
          → (w2 : W) × (dial_tcp_2 net host (pos port) w ≡ (w2, none)) × Opens is_open w w2 fd)
  unfolding dial_tcp_2 announce_tcp sock_tcp_2
  dial_tcp_2-Kept = (
    dial_unix-Kept net files,
    announce_unix-Kept net files,
    λ host port w known. connect_tcp-Kept w _ (sock_tcp_2-Ready host port w known),
    λ addr w known.
        announce_at-Kept w _ (sock_tcp_2-Ready (get_port addr).0 (get_port addr).1 w known),
    λ host port w fd other unknown e.
        dial-leaks host port w fd (net.socket af_inet w) other unknown (files.socket af_inet w) e,
  )
