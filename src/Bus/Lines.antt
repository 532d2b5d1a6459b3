-- ===== src/Bus/Lines.antt =====
-- The lines of the bus SPI (arch/mips/impl/harmony/bus_spi_impl.c) from opening to use.
use xhopin.Base.{
  ℕ, ◌≤◌, ◌≡◌, ◌≢◌, refl, Bool, true, List, [], none, some, ok, wild, ◌==◌, if◌then◌else◌, success,
  failure, arith,
}
use xhopin.Bus.Spi.{
  SpiDriver, Spi, arch_spi_open, arch_spi_transfer, arch_spi_set_callback, spi1_cb,
}

module _ (D : SpiDriver) where
  open D use {has_spi, compiled, callback_register}

  -- The second line, where the processor and the build have it, can be opened, and yet each transfer on
  -- it fails and leaves everything as it was, and setting a callback fails although it is noted.
  second_line :
      (s : Spi D) (tx : List ℕ) (rx_size cb ctx : ℕ)
      → has_spi 1 ≡ true
      → compiled 1 ≡ true
      → (arch_spi_open D true 1 none s ≡ (success, s))
        × (arch_spi_transfer D 1 tx rx_size s ≡ (failure, [], s))
        × ((g : Spi D) × (arch_spi_set_callback D 1 cb ctx s ≡ ok (failure, g))
            × (g.spi_callbacks 1 ≡ cb)
            × (g.spi_contexts 1 ≡ ctx)
            × (g.dev ≡ s.dev))
  unfolding arch_spi_open arch_spi_transfer arch_spi_set_callback
  second_line s tx rx_size cb ctx has comp = (
    rw (comp, has),
    refl,
    (
      record s {
        spi_callbacks = λ i. if i == 1 then cb else s.spi_callbacks i;
        spi_contexts = λ i. if i == 1 then ctx else s.spi_contexts i;
      },
      refl,
      refl,
      refl,
      refl,
    ),
  )

  -- A callback other than NULL that is set for the first line is the one that the line calls, with its
  -- context, until another is set; setting one for any line but the first two writes outside the tables.
  spi1_cb-arch_spi_set_callback :
      (s : Spi D) (cb ctx cb' ctx' id : ℕ)
      → cb ≢ 0
      → 2 ≤ id
      → ((g h : Spi D) × (arch_spi_set_callback D 0 cb ctx s ≡ ok (success, g))
          × (arch_spi_set_callback D 1 cb' ctx' g ≡ ok (failure, h))
          × (spi1_cb D g ≡ some (cb, ctx))
          × (spi1_cb D h ≡ some (cb, ctx)))
        × (arch_spi_set_callback D id cb ctx s ≡ wild)
  unfolding arch_spi_set_callback spi1_cb
  spi1_cb-arch_spi_set_callback s cb ctx cb' ctx' id some_cb far =
      let g : Spi D = record {
        dev = callback_register s.dev;
        spi_callbacks = λ i. if i == 0 then cb else s.spi_callbacks i;
        spi_contexts = λ i. if i == 0 then ctx else s.spi_contexts i;
      } in
      let h : Spi D = record g {
        spi_callbacks = λ i. if i == 1 then cb' else g.spi_callbacks i;
        spi_contexts = λ i. if i == 1 then ctx' else g.spi_contexts i;
      } in
      let set : (cb == 0) ≡ Bool.false = ground arith in
      ((g, h, refl, refl, rw set, rw set), ground arith)
