-- ===== src/Fs.antt =====
-- kernel/fs: descriptors and the calls on them, and the resolution of path names.
pub mod Table
pub mod Files
pub mod Calls
pub mod Names
pub mod Paths
pub mod Vnode
pub mod Tests
mod NamesTests
mod PathsTests
mod VnodeTests
