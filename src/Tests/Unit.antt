-- ===== src/Tests/Unit.antt =====
-- The unit tests that the sources come with, each as a truth value that must be true.
mod World
mod Balancer
mod Upstream
mod Headers
mod Rejections
mod Config
mod Proxy
