-- ===== src/Mm.antt =====
-- kernel/mm/pframe.c, kernel/vm/anon.c, kernel/vm/shadow.c: the page cache and its memory objects.
pub mod Cache
pub mod Frames
pub mod Put
pub mod Lookup
pub mod Tests
