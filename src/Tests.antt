-- ===== src/Tests.antt =====
-- Concrete instances of what the models take from outside, tests of the definitions, and the
-- theorems at concrete inputs.
mod ListTables
mod SharingTests
mod ListUpdates
mod InviteTests
mod LiveTests
mod AuthTests
mod ZeroCrypto
mod ProfileTests
mod RecordingsTests
mod PlainPath
mod ServiceTests
mod ControllerTests
mod WebTests
mod PoolTests
mod ManagerTests
